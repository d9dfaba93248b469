-- ===== src/Service/Queue/Drain.antt =====
-- What is taken out of the queue: the oldest entry, and by a drain every entry.
use native.Mathlib.Decide.{dec_lt}
use walite.Base.{
  refl, ◌∙◌, Bool, false, ◌||◌, List, get_elem?, ℕ, zero, suc, ◌+◌, ◌<◌, ◌≡◌, sym, ap, [], ◌∷◌,
  length, Option, none, some, arith, inl, inr, ◌⊎◌, subst, Option-cases,
}
use walite.Service.Budget.{Budget}
use walite.Service.Budget.Invariant.{IsBudget}
use walite.Service.Budget.Steps.{release-IsBudget}
use walite.Service.Budget.Settle.{settled, is_named, settled-or, release-settled}
use walite.Service.Queue.{
  Queue, Envelope, empty_slot, try_take, drain_from, drain_and_release, release_lease,
}
use walite.Service.Queue.Ring.{slots}
use walite.Service.Queue.Invariant.{
  IsQueue, contents, try_take-empty, try_take-some, taken-IsQueue, oldest, taken,
}

module _ {ℓ} {T : Type ℓ} where
  -- Taking from a valid queue gives the first of its entries and leaves the others in a valid
  -- queue, or changes nothing if there is none.
  pub try_take-oldest :
      (q : Queue T)
      → IsQueue q
      → (contents q ≡ []) × (try_take q ≡ (none, q))
        ⊎ ((l : Envelope T) × ((q' : Queue T) × ((try_take q ≡ (some l, q'))
                × (contents q ≡ l ∷ contents q')
                × IsQueue q')))
  try_take-oldest q v = elim (dec_lt 0 q.count) [
    | yes some_entry ↦
        let (v', first) = taken-IsQueue q v some_entry in
        inr (oldest q, (taken q, (try_take-some q some_entry, first, v')))
    | no no_entry ↦
        let empty : q.count ≡ 0 = omega arith in
        inl
          (ap (slots (length q.storage) empty_slot q.storage q.head) empty, try_take-empty q empty)
  ]

  -- One of the entries holds the permit.
  abbrev pub holds : List (Envelope T) → ℕ → Bool
  holds [] k = false
  holds (l ∷ ls) k = is_named l.permit k || holds ls k

  -- What a drain of those entries leaves; the permits are those before, where the ones that the
  -- entries hold are released.
  pub record Drained (entries : List (Envelope T)) (b : Budget) (n : ℕ) (r : ℕ × Queue T)
      : Type ℓ where
    pub counted : r.0 ≡ n
    pub emptied : contents r.1 ≡ []
    pub valid : IsQueue r.1
    pub budget_valid : IsBudget r.1.budget
    pub returned :
        (k : ℕ) → get_elem? r.1.budget.permits k ≡ settled (holds entries k) (get_elem? b.permits k)

  release_lease-settled :
      (b : Budget) (l : Envelope T) (k : ℕ)
      → get_elem? (release_lease b l).0.permits k
        ≡ settled (is_named l.permit k) (get_elem? b.permits k)
  unfolding release_lease
  release_lease-settled b l k = elim (Option-cases l.permit) [
    | inl e ↦ rw e refl
    | inr (i, e) ↦ rw e (release-settled b i k)
  ]

  release_lease-IsBudget :
      (b : Budget) (l : Envelope T) → IsBudget b → IsBudget (release_lease b l).0
  unfolding release_lease
  release_lease-IsBudget b l v = elim (Option-cases l.permit) [
    | inl e ↦ rw e v
    | inr (i, e) ↦ rw e (release-IsBudget b i v)
  ]

  abbrev round : ℕ → ℕ → Option (Envelope T) × Queue T → ℕ × Queue T
  round fuel drained r = elim r.0 [
    | none ↦ (drained, r.1)
    | some l ↦
        drain_from fuel (drained + 1) (record r.1 { budget = (release_lease r.1.budget l).0 })
  ]

  drain_from-Drained :
      (fuel drained : ℕ) (q : Queue T)
      → q.count < fuel
      → IsQueue q
      → IsBudget q.budget
      → Drained (contents q) q.budget (drained + q.count) (drain_from fuel drained q)
  unfolding drain_from
  drain_from-Drained zero drained q h v bv = absurd (omega arith)
  drain_from-Drained (suc fuel) drained q h v bv = elim (dec_lt 0 q.count) [
    | yes some_entry ↦
        let (v', first) = taken-IsQueue q v some_entry in
        let b' = (release_lease q.budget (oldest q)).0 in
        let rest =
          drain_from-Drained fuel (drained + 1) (record (taken q) { budget = b' }) (omega arith)
            (record { head_in = v'.head_in; tail_at = v'.tail_at; within = v'.within })
            (release_lease-IsBudget q.budget (oldest q) bv) in
        subst (Drained (contents q) q.budget (drained + q.count))
          (sym (ap (round fuel drained) (try_take-some q some_entry)))
          (record {
            counted = omega (arith, rest.counted);
            emptied = rest.emptied;
            valid = rest.valid;
            budget_valid = rest.budget_valid;
            returned = λ k.
                rest.returned k
                ∙ ap (settled (holds (contents (taken q)) k))
                    (release_lease-settled q.budget (oldest q) k)
                ∙ settled-or (holds (contents (taken q)) k) (is_named (oldest q).permit k) _
                ∙ ap (λ ls. settled (holds ls k) (get_elem? q.budget.permits k)) (sym first);
          })
    | no no_entry ↦
        let empty : q.count ≡ 0 = omega arith in
        let none_there : contents q ≡ [] =
          ap (slots (length q.storage) empty_slot q.storage q.head) empty in
        subst (Drained (contents q) q.budget (drained + q.count))
          (sym (ap (round fuel drained) (try_take-empty q empty)))
          (record {
            counted = omega arith;
            emptied = none_there;
            valid = v;
            budget_valid = bv;
            returned = λ k.
                ap (λ ls. settled (holds ls k) (get_elem? q.budget.permits k)) (sym none_there);
          })
  ]

  -- A drain of a valid queue with a valid budget takes and counts every entry, and leaves an
  -- empty valid queue with a valid budget, in which exactly the permits that the entries held are
  -- released and all others are as they were.
  pub drain_and_release-Drained :
      (q : Queue T)
      → IsQueue q
      → IsBudget q.budget
      → Drained (contents q) q.budget q.count (drain_and_release q)
  unfolding drain_and_release
  drain_and_release-Drained q v bv =
      subst (λ n. Drained (contents q) q.budget n (drain_from (suc q.count) 0 q)) (omega arith)
        (drain_from-Drained (suc q.count) 0 q (omega arith) v bv)
