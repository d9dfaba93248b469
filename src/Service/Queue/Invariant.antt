-- ===== src/Service/Queue/Invariant.antt =====
-- The representation invariant of the queue and what it holds, first in first out.
use native.Mathlib.Nat.{mod-add-mod, mod-eq_of_lt, mod-lt}
use native.Mathlib.Numerals.{add-one}
use walite.Base.{
  subst, ℕ, zero, suc, ◌+◌, ◌-◌, ◌%◌, ◌==◌, ◌≤◌, ◌<◌, ◌≡◌, refl, ◌∙◌, sym, ap, ℤ, pos, negsuc, true,
  false, List, [], ◌∷◌, ◌++◌, length, get_or, set, length-set, length-replicate, replicate, none,
  some, ok, arith,
}
use walite.Service.Budget.{Budget, positive}
use walite.Service.Queue.{Queue, Envelope, empty_slot, new_bounded_queue, enqueue, try_take}
use walite.Service.Queue.Ring.{slots, slots-write, slots-clear}

module _ {ℓ} {T : Type ℓ} where
  pub record IsQueue (q : Queue T) : Type 0 where
    pub head_in : q.head < length q.storage
    pub tail_at : q.tail ≡ (q.head + q.count) % length q.storage
    pub within : q.count + q.reservations ≤ length q.storage

  -- The entries, oldest first.
  abbrev pub contents : Queue T → List (Envelope T)
  contents q = slots (length q.storage) empty_slot q.storage q.head q.count

  abbrev pub entry : T → ℕ → Envelope T
  entry value permit = record { value = some value; permit = some permit }

  abbrev fresh_ring : ℕ → Budget → Queue T
  fresh_ring n b = record {
    storage = replicate n empty_slot;
    head = 0;
    tail = 0;
    count = 0;
    reservations = 0;
    stopped = false;
    entry_waiters = 0;
    byte_waiters = 0;
    put_waiter = false;
    budget = b;
    space_wake = false;
    not_empty_wake = false;
    state_wake = false;
  }

  -- A new queue is valid and has no entries.
  pub new_bounded_queue-IsQueue :
      (entries : ℤ) (b : Budget) {q : Queue T}
      → new_bounded_queue entries b ≡ ok q
      → IsQueue q × (contents q ≡ [])
  unfolding new_bounded_queue positive
  new_bounded_queue-IsQueue (pos zero) b e = cc
  new_bounded_queue-IsQueue (negsuc k) b e = cc
  new_bounded_queue-IsQueue (pos (suc k)) b {q} e =
      let made : fresh_ring (suc k) b ≡ q = ground arith in
      subst (λ q. IsQueue q × (contents q ≡ [])) made
        (
          record {
            head_in = rw (length-replicate (suc k) empty_slot) (omega arith);
            tail_at = sym (mod-eq_of_lt (rw (length-replicate (suc k) empty_slot) (omega arith)));
            within = omega arith;
          },
          refl,
        )

  pub enqueue-IsQueue :
      (q : Queue T) (value : T) (permit : ℕ)
      → IsQueue q
      → q.count + q.reservations < length q.storage
      → IsQueue (enqueue q value permit)
        × (contents (enqueue q value permit) ≡ contents q ++ (entry value permit ∷ []))
  unfolding enqueue
  enqueue-IsQueue q value permit v room =
      let same = length-set q.storage q.tail (entry value permit) in
      (
        record {
          head_in = rw same v.head_in;
          tail_at =
              rw (same, v.tail_at, mod-add-mod) (ap (λ t. t % length q.storage) (omega arith));
          within = rw same (omega arith);
        },
        ap
              (λ c.
                slots c empty_slot (set q.storage q.tail (entry value permit)) q.head (q.count + 1))
              same
            ∙ ap
                (slots (length q.storage) empty_slot (set q.storage q.tail (entry value permit))
                  q.head)
                (add-one q.count)
            ∙ ap
                (λ j.
                  slots (length q.storage) empty_slot (set q.storage j (entry value permit)) q.head
                    (suc q.count))
                v.tail_at
            ∙ slots-write (length q.storage) empty_slot q.storage q.head q.count
                (entry value permit) v.head_in (omega arith) (omega arith),
      )

  pub try_take-empty : (q : Queue T) → q.count ≡ 0 → try_take q ≡ (none, q)
  unfolding try_take
  try_take-empty q e = let test : (q.count == 0) ≡ true = ground arith in rw test

  -- The oldest entry, and the queue without it.
  abbrev pub oldest : Queue T → Envelope T
  oldest q = get_or q.storage q.head empty_slot

  abbrev pub taken : Queue T → Queue T
  taken q = record q {
    storage = set q.storage q.head empty_slot;
    head = (q.head + 1) % length q.storage;
    count = q.count - 1;
    space_wake = true;
    state_wake = true;
  }

  pub try_take-some : (q : Queue T) → 0 < q.count → try_take q ≡ (some (oldest q), taken q)
  unfolding try_take
  try_take-some q h = let test : (q.count == 0) ≡ false = ground arith in rw test

  pub taken-IsQueue :
      (q : Queue T)
      → IsQueue q
      → 0 < q.count
      → IsQueue (taken q) × (contents q ≡ oldest q ∷ contents (taken q))
  taken-IsQueue q v h =
      let same = length-set q.storage q.head (empty_slot {T = T}) in
      let split : q.count ≡ suc (q.count - 1) = omega arith in
      (
        record {
          head_in = rw same (mod-lt (q.head + 1) (omega (arith, v.head_in)));
          tail_at =
              rw same
                (v.tail_at ∙ sym (rw mod-add-mod (ap (λ t. t % length q.storage) (omega arith))));
          within = rw same (omega (arith, v.within));
        },
        ap (slots (length q.storage) empty_slot q.storage q.head) split
            ∙ ap (λ t. oldest q ∷ t)
                (sym (
                  ap
                    (λ c.
                      slots c empty_slot (set q.storage q.head empty_slot)
                        ((q.head + 1) % length q.storage) (q.count - 1))
                    same
                  ∙ slots-clear (length q.storage) empty_slot q.storage q.head (q.count - 1)
                      empty_slot v.head_in (omega (arith, v.within)))),
      )
