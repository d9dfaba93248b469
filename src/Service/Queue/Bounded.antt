-- ===== src/Service/Queue/Bounded.antt =====
-- Each operation keeps a queue within its slots and its budget.
use walite.Base.{
  ℕ, zero, suc, ◌+◌, ◌-◌, ◌==◌, ◌<◌, ◌≤◌, ◌≡◌, refl, ◌∙◌, sym, ap, ℤ, pos, Bool, true, false, ◌||◌,
  ok, length, length-set, length-replicate, replicate, WhenOk, leb, Option, none, some, arith,
  Bool-cases, Result-cases, inl, inr, subst, if◌then◌else◌,
}
use walite.Service.Failure.{Failure, permit_released}
use walite.Service.Budget.{Budget, positive, try_acquire, replace}
use walite.Service.Budget.Invariant.{IsBudget}
use walite.Service.Budget.Steps.{Keeps, try_acquire-Keeps, replace-Keeps, release-IsBudget}
use walite.Service.Queue.{
  Queue, Reservation, empty_slot, new_bounded_queue, enqueue, try_take, close, drain_from,
  drain_and_release, is_full, reserve_positive, try_reserve_capacity, release_active,
  release_reservation, register_put_waiter, weighed, try_put, commit_active, commit,
}
use walite.Service.Queue.Invariant.{
  IsQueue, new_bounded_queue-IsQueue, enqueue-IsQueue, taken-IsQueue,
}
use walite.Service.Queue.Refine.{try_put-Put}
use walite.Service.Queue.Drain.{drain_and_release-Drained}

-- A predicate through a test, and through a case of an option.
if-holds {ℓ κ} :
    {A : Type ℓ} (P : A → Type κ) (b : Bool) (x y : A) → P x → P y → P (if b then x else y)
if-holds P true x y p q = p
if-holds P false x y p q = q

option-holds {ℓ κ μ} :
    {A : Type ℓ} {B : Type κ} (P : B → Type μ) (o : Option A) (x : B) (f : A → B)
    → P x
    → ((a : A) → P (f a))
    → P (elim o [ none ↦ x | some a ↦ f a ])
option-holds P none x f p q = p
option-holds P (some a) x f p q = q a

module _ {ℓ} {T : Type ℓ} where
  -- A valid queue of `n` slots with a valid budget.
  pub record IsBounded (n : ℕ) (q : Queue T) : Type 0 where
    pub queue : IsQueue q
    pub budget : IsBudget q.budget
    pub size : length q.storage ≡ n

  pub new_bounded_queue-IsBounded :
      (n : ℕ) (b : Budget) {q : Queue T}
      → IsBudget b
      → new_bounded_queue (pos n) b ≡ ok q
      → IsBounded n q
  unfolding new_bounded_queue positive
  new_bounded_queue-IsBounded zero b v e = cc
  new_bounded_queue-IsBounded (suc k) b {q} v e = record {
    queue = (new_bounded_queue-IsQueue (pos (suc k)) b e).0;
    budget = let same : b ≡ q.budget = ground arith in subst IsBudget same v;
    size =
        let same : replicate (suc k) empty_slot ≡ q.storage = ground arith in
        ap length (sym same) ∙ length-replicate (suc k) empty_slot;
  }

  -- A call that leaves the ring as it is.
  same_ring :
      (n : ℕ) (q : Queue T) (b : Budget) (r : ℕ)
      → IsBounded n q
      → IsBudget b
      → q.count + r ≤ n
      → IsBounded n (record q { budget = b; reservations = r })
  same_ring n q b r v bv room = record {
    queue = record {
      head_in = v.queue.head_in;
      tail_at = v.queue.tail_at;
      within = omega (arith, v.size);
    };
    budget = bv;
    size = v.size;
  }

  pub try_take-IsBounded : (n : ℕ) (q : Queue T) → IsBounded n q → IsBounded n (try_take q).1
  unfolding try_take
  try_take-IsBounded n q v = elim (Bool-cases (q.count == 0)) [
    | inl empty ↦ rw empty v
    | inr some_entry ↦ rw some_entry (record {
      queue = (taken-IsQueue q v.queue (ground arith)).0;
      budget = v.budget;
      size = length-set q.storage q.head empty_slot ∙ v.size;
    })
  ]

  try_take-size : (q : Queue T) → length (try_take q).1.storage ≡ length q.storage
  unfolding try_take
  try_take-size q = elim (Bool-cases (q.count == 0)) [
    | inl empty ↦ rw empty refl
    | inr some_entry ↦ rw some_entry (length-set q.storage q.head empty_slot)
  ]

  drain_from-size :
      (fuel drained : ℕ) (q : Queue T)
      → length (drain_from fuel drained q).1.storage ≡ length q.storage
  unfolding drain_from
  drain_from-size zero drained q = refl
  drain_from-size (suc fuel) drained q =
      option-holds (λ (r : ℕ × Queue T). length r.1.storage ≡ length q.storage) (try_take q).0
        (drained, (try_take q).1) _ (try_take-size q)
        (λ l. drain_from-size fuel (drained + 1) _ ∙ try_take-size q)

  pub drain_and_release-IsBounded :
      (n : ℕ) (q : Queue T) → IsBounded n q → IsBounded n (drain_and_release q).1
  drain_and_release-IsBounded n q v =
      let r = drain_and_release-Drained q v.queue v.budget in
      record {
        queue = r.valid;
        budget = r.budget_valid;
        size = unfold drain_and_release in drain_from-size (suc q.count) 0 q ∙ v.size;
      }

  with_enqueued :
      (n : ℕ) (q : Queue T) (value : T) (permit : ℕ)
      → IsBounded n q
      → q.count + q.reservations < n
      → IsBounded n (enqueue q value permit)
  with_enqueued n q value permit v room = record {
    queue = (enqueue-IsQueue q value permit v.queue (omega (arith, v.size))).0;
    budget = unfold enqueue in v.budget;
    size = unfold enqueue in length-set q.storage q.tail _ ∙ v.size;
  }

  reserve_positive-IsBounded :
      (n : ℕ) (q : Queue T) (weight : ℤ)
      → IsBounded n q
      → WhenOk (λ (r : Reservation × Queue T). IsBounded n r.1) (reserve_positive q weight)
  unfolding reserve_positive
  reserve_positive-IsBounded n q weight v = elim (Bool-cases q.stopped) [
    | inl stopped ↦ rw stopped tt
    | inr running ↦ elim (Bool-cases (is_full q)) [
      | inl full ↦ rw (running, full) tt
      | inr room ↦ elim (Result-cases (try_acquire q.budget weight)) [
        | inl (e, refused) ↦ rw (running, room, refused) tt
        | inr ((i, b), made) ↦
            let bv : IsBudget b = subst Keeps made (try_acquire-Keeps q.budget weight v.budget) in
            let some_left : q.count + (q.reservations + 1) ≤ length q.storage =
              ground (arith, v.queue.within) in
            rw (running, room, made)
              (record {
                queue = record {
                  head_in = v.queue.head_in;
                  tail_at = v.queue.tail_at;
                  within = some_left;
                };
                budget = bv;
                size = v.size;
              })
      ]
    ]
  ]

  pub try_reserve_capacity-IsBounded :
      (n : ℕ) (q : Queue T) (weight : ℤ)
      → IsBounded n q
      → WhenOk (λ (r : Reservation × Queue T). IsBounded n r.1) (try_reserve_capacity q weight)
  unfolding try_reserve_capacity
  try_reserve_capacity-IsBounded n q weight v = elim (Result-cases (positive weight)) [
    | inl (e, odd) ↦ rw (odd, try_reserve_capacity) tt
    | inr (w, fine) ↦ rw (fine, try_reserve_capacity) (reserve_positive-IsBounded n q weight v)
  ]

  release_active-IsBounded :
      (n : ℕ) (q : Queue T) (r : Reservation) (i : ℕ)
      → IsBounded n q
      → IsBounded n (release_active q r i).0
  unfolding release_active
  release_active-IsBounded n q r i v = elim (Bool-cases (q.reservations == 0)) [
    | inl none_out ↦ rw none_out v
    | inr out ↦ rw out (record {
      queue = record {
        head_in = v.queue.head_in;
        tail_at = v.queue.tail_at;
        within = omega (arith, v.queue.within);
      };
      budget = release-IsBudget q.budget i v.budget;
      size = v.size;
    })
  ]

  pub release_reservation-IsBounded :
      (n : ℕ) (q : Queue T) (r : Reservation)
      → IsBounded n q
      → IsBounded n (release_reservation q r).0
  unfolding release_reservation
  release_reservation-IsBounded n q r v =
      let P : Queue T × Reservation × Option Failure → Type 0 = λ t. IsBounded n t.0 in
      option-holds P r.permit (q, r, some permit_released) _ v
        (λ i.
          if-holds P r.active (release_active q r i) (q, r, some permit_released)
            (release_active-IsBounded n q r i v) v)

  pub marked :
      (n : ℕ) (q : Queue T) (b : Budget)
      → IsBounded n q
      → IsBudget b
      → IsBounded n (record q { budget = b })
  marked n q b v bv = record {
    queue = record {
      head_in = v.queue.head_in;
      tail_at = v.queue.tail_at;
      within = v.queue.within;
    };
    budget = bv;
    size = v.size;
  }

  pub close-IsBounded : (n : ℕ) (q : Queue T) → IsBounded n q → IsBounded n (close q)
  unfolding close
  close-IsBounded n q v = if-holds (IsBounded n) q.stopped q _ v (record {
    queue = record {
      head_in = v.queue.head_in;
      tail_at = v.queue.tail_at;
      within = v.queue.within;
    };
    budget = v.budget;
    size = v.size;
  })

  pub register_put_waiter-IsBounded :
      (n : ℕ) (q : Queue T) (entry : Bool)
      → IsBounded n q
      → IsBounded n (register_put_waiter q entry).1
  unfolding register_put_waiter
  register_put_waiter-IsBounded n q entry v =
      if-holds (λ (r : Bool × Queue T). IsBounded n r.1) q.put_waiter (false, q) _ v
        (record {
          queue = record {
            head_in = v.queue.head_in;
            tail_at = v.queue.tail_at;
            within = v.queue.within;
          };
          budget = v.budget;
          size = v.size;
        })

module _ {ℓ} {T : Type ℓ} (weigh : T → Option ℤ) where
  commit_active-IsBounded :
      (n : ℕ) (q : Queue T) (r : Reservation) (i : ℕ) (value : T)
      → IsBounded n q
      → IsBounded n (commit_active weigh q r i value).0
  unfolding commit_active
  commit_active-IsBounded n q r i value v = elim (Result-cases (weighed weigh value)) [
    | inl (e, odd) ↦ rw (odd, commit_active) v
    | inr (w, fine) ↦ elim (Bool-cases (q.reservations == 0 || leb (length q.storage) q.count)) [
      | inl off ↦ rw (fine, off, commit_active) v
      | inr out ↦ elim (Result-cases (replace q.budget i (pos w))) [
        | inl (e, refused) ↦ rw (fine, out, refused, commit_active) v
        | inr ((j, b), made) ↦
            let bv : IsBudget b = subst Keeps made (replace-Keeps q.budget i (pos w) v.budget) in
            rw (fine, out, made, commit_active)
              (with_enqueued n (record q { budget = b; reservations = q.reservations - 1 }) value j
                (same_ring n q b (q.reservations - 1) v bv (omega (arith, v.queue.within, v.size)))
                (ground (arith, v.queue.within, v.size)))
      ]
    ]
  ]

  pub commit-IsBounded :
      (n : ℕ) (q : Queue T) (r : Reservation) (value : T)
      → IsBounded n q
      → IsBounded n (commit weigh q r value).0
  unfolding commit
  commit-IsBounded n q r value v =
      let P : Queue T × Reservation × Option Failure → Type 0 = λ t. IsBounded n t.0 in
      option-holds P r.permit (q, r, some permit_released) _ v
        (λ i.
          if-holds P r.active (commit_active weigh q r i value) (q, r, some permit_released)
            (commit_active-IsBounded n q r i value v) v)

  pub try_put-IsBounded :
      (n : ℕ) (q : Queue T) (value : T) → IsBounded n q → IsBounded n (try_put weigh q value).0
  try_put-IsBounded n q value v =
      let r = try_put-Put weigh q value v.queue v.budget in
      record { queue = r.valid; budget = r.budget_valid; size = r.room ∙ v.size }
