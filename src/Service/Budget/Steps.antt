-- ===== src/Service/Budget/Steps.antt =====
-- Each operation keeps the invariant, and what it does to the bytes in use.
use walite.Base.{
  ℕ, zero, suc, ◌+◌, ◌-◌, ◌≤◌, ◌<◌, ◌≡◌, refl, ◌∙◌, ap, ℤ, pos, negsuc, true, false, List, [], ◌∷◌,
  ◌↔◌, Result, ok, err, is_ok, get_elem?, set, All-set, All-get, none, some, arith, Option-cases,
  Bool-cases, inl, inr, ◌⊎◌, get_elem?-set_self, ltb, ◌||◌, ◌&&◌, ◌==◌,
}
use walite.Service.Failure.{Failure, invalid_weight, queue_full, permit_released}
use walite.Service.Budget.{
  Budget, Permit, spend, new_byte_budget, acquire_positive, try_acquire, replace_permit,
  replace_positive, replace, release_permit, release, grant,
}
use walite.Service.Budget.Invariant.{
  IsBudget, HasWeight, new_byte_budget-IsBudget, live, live-spend, weight-le-live, grant-IsBudget,
  get_elem?-lt,
}

-- A refused call has no new budget.
abbrev pub Keeps : Result Failure (ℕ × Budget) → Type 0
Keeps (ok r) = IsBudget r.1
Keeps (err e) = Unit {0}

acquire_positive-Keeps : (b : Budget) (w : ℕ) → IsBudget b → 0 < w → Keeps (acquire_positive b w)
unfolding acquire_positive
acquire_positive-Keeps b w v h = elim (Bool-cases (ltb b.capacity w)) [
  | inl large ↦ rw large tt
  | inr small ↦ elim (Bool-cases (ltb (b.capacity - w) b.used)) [
    | inl full ↦ rw (small, full) tt
    | inr fits ↦
        rw (small, fits)
          (grant-IsBudget b (b.used + w) w (omega (arith, v.accounted)) (ground arith) h v.weighted)
  ]
]

pub try_acquire-Keeps : (b : Budget) (z : ℤ) → IsBudget b → Keeps (try_acquire b z)
unfolding try_acquire
try_acquire-Keeps b (pos zero) v = tt
try_acquire-Keeps b (pos (suc n)) v = acquire_positive-Keeps b (suc n) v (omega arith)
try_acquire-Keeps b (negsuc n) v = tt

replace_permit-Keeps :
    (b : Budget) (i : ℕ) (p : Permit) (w : ℕ)
    → IsBudget b
    → 0 < w
    → get_elem? b.permits i ≡ some p
    → Keeps (replace_permit b i p w)
unfolding replace_permit
replace_permit-Keeps b i p w v h e = elim (Bool-cases (ltb b.capacity w)) [
  | inl large ↦ rw large tt
  | inr small ↦ elim (Bool-cases p.released) [
    | inl gone ↦ rw (small, gone) tt
    | inr held ↦ elim (Bool-cases (ltb p.weight w && ltb (b.capacity - (w - p.weight)) b.used)) [
      | inl full ↦ rw (small, held, full) tt
      | inr fits ↦
          let spent = live-spend b.permits i p e held in
          rw (small, held, fits)
            (grant-IsBudget
              (record b { permits = set b.permits i (spend p); wake = b.wake || ltb w p.weight })
              (b.used + w - p.weight) w (omega (arith, v.accounted)) (ground (arith, v.bounded)) h
              (All-set HasWeight b.permits i (spend p) v.weighted
                (All-get HasWeight b.permits i v.weighted e)))
    ]
  ]
]

replace_positive-Keeps :
    (b : Budget) (i w : ℕ) → IsBudget b → 0 < w → Keeps (replace_positive b i w)
unfolding replace_positive
replace_positive-Keeps b i w v h = elim (Option-cases (get_elem? b.permits i)) [
  | inl missing ↦ rw (missing, Keeps, replace_positive) tt
  | inr (p, e) ↦ rw (e, Keeps, replace_positive) (replace_permit-Keeps b i p w v h e)
]

pub replace-Keeps : (b : Budget) (i : ℕ) (z : ℤ) → IsBudget b → Keeps (replace b i z)
unfolding replace
replace-Keeps b i (pos zero) v = tt
replace-Keeps b i (pos (suc n)) v = replace_positive-Keeps b i (suc n) v (omega arith)
replace-Keeps b i (negsuc n) v = tt

-- A permit that is out is returned in full: the guard against a negative count never fires.
pub release-live :
    (b : Budget) (i : ℕ) (p : Permit)
    → IsBudget b
    → get_elem? b.permits i ≡ some p
    → p.released ≡ false
    → release b i ≡ (
      record b { used = b.used - p.weight; permits = set b.permits i (spend p); wake = true },
      none,
    )
unfolding release
release-live b i p v e held =
    let w = All-get HasWeight b.permits i v.weighted e in
    let covered = weight-le-live b.permits i p e held in
    let a = v.accounted in
    let pays : (p.weight == 0 || ltb b.used p.weight) ≡ false = ground arith in
    rw (e, release) (rw (held, pays))

release_permit-IsBudget :
    (b : Budget) (i : ℕ) (p : Permit)
    → IsBudget b
    → get_elem? b.permits i ≡ some p
    → IsBudget (release b i).0
release_permit-IsBudget b i p v e = elim (Bool-cases p.released) [
  | inl gone ↦ rw (spent gone) v
  | inr held ↦
      let s = live-spend b.permits i p e held in
      let a = v.accounted in
      rw (release-live b i p v e held) (record {
        accounted = omega arith;
        bounded = omega (arith, v.bounded);
        weighted =
            All-set HasWeight b.permits i (spend p) v.weighted
              (All-get HasWeight b.permits i v.weighted e);
      })
]
  where
    spent : p.released ≡ true → (release b i).0 ≡ b
    spent gone = unfold release in rw (e, release) (rw gone)

pub release-IsBudget : (b : Budget) (i : ℕ) → IsBudget b → IsBudget (release b i).0
release-IsBudget b i v = elim (Option-cases (get_elem? b.permits i)) [
  | inl missing ↦ rw (absent missing) v
  | inr (p, e) ↦ release_permit-IsBudget b i p v e
]
  where
    absent : get_elem? b.permits i ≡ none → (release b i).0 ≡ b
    absent missing = unfold release in rw (missing, release)

-- After a successful release a second one of the same permit is refused and changes nothing.
pub release_twice :
    (b b' : Budget) (i : ℕ) → release b i ≡ (b', none) → release b' i ≡ (b', some permit_released)
release_twice b b' i h = elim (Option-cases (get_elem? b.permits i)) [
  | inl missing ↦ absurd (refused missing)
  | inr (p, e) ↦
      let kept : b'.permits ≡ set b.permits i (spend p) = spent p e in
      let found : get_elem? b'.permits i ≡ some (spend p) =
        ap (λ ps. get_elem? ps i) kept
        ∙ get_elem?-set_self b.permits i (spend p) (get_elem?-lt b.permits i e) in
      unfold release in rw (found, release)
]
  where
    refused : get_elem? b.permits i ≡ none → ⊥
    refused missing =
        let gone : release b i ≡ (b, some permit_released) =
          unfold release in rw (missing, release) in
        cc

    spent : (p : Permit) → get_elem? b.permits i ≡ some p → b'.permits ≡ set b.permits i (spend p)
    spent p e =
        let found : release b i ≡ release_permit b i p = unfold release in rw (e, release) in
        unfold release_permit in ground arith

-- The calls of a budget's clients, in any order.
pub data Call : Type 0 where
  acquires : ℤ → Call
  replaces : ℕ → ℤ → Call
  releases : ℕ → Call

-- An error leaves the budget as it is, but for `Release`, which returns it.
abbrev after : Budget → Result Failure (ℕ × Budget) → Budget
after b (ok r) = r.1
after b (err e) = b

unfoldable pub step : Budget → Call → Budget
step b (acquires weight) = after b (try_acquire b weight)
step b (replaces i weight) = after b (replace b i weight)
step b (releases i) = (release b i).0

unfoldable pub run : Budget → List Call → Budget
unfolding step
run b [] = b
run b (c ∷ cs) = run (step b c) cs

after-IsBudget :
    (b : Budget) (r : Result Failure (ℕ × Budget)) → IsBudget b → Keeps r → IsBudget (after b r)
after-IsBudget b (ok r) v k = k
after-IsBudget b (err e) v k = v

-- Every call keeps the invariant.
pub step-IsBudget : (b : Budget) (c : Call) → IsBudget b → IsBudget (step b c)
unfolding step
step-IsBudget b (acquires z) v = after-IsBudget b (try_acquire b z) v (try_acquire-Keeps b z v)
step-IsBudget b (replaces i z) v = after-IsBudget b (replace b i z) v (replace-Keeps b i z v)
step-IsBudget b (releases i) v = release-IsBudget b i v

run-IsBudget : (b : Budget) (cs : List Call) → IsBudget b → IsBudget (run b cs)
unfolding run
run-IsBudget b [] v = v
run-IsBudget b (c ∷ cs) v = run-IsBudget (step b c) cs (step-IsBudget b c v)

-- After any calls on a new budget the bytes in use are the sum of the weights of the permits that
-- are not released, and are within the capacity.
pub run-new-IsBudget :
    (capacity : ℤ) (b : Budget) (cs : List Call)
    → new_byte_budget capacity ≡ ok b
    → IsBudget (run b cs)
run-new-IsBudget capacity b cs e = run-IsBudget b cs (new_byte_budget-IsBudget capacity e).0

-- A valid budget grants a weight exactly if it is positive and fits beside the permits that are
-- out.
pub try_acquire_iff :
    (b : Budget) (w : ℕ)
    → IsBudget b
    → (is_ok (try_acquire b (pos w)) ≡ true) ↔ ((0 < w) × (live b.permits + w ≤ b.capacity))
unfolding try_acquire acquire_positive
try_acquire_iff b zero v = (λ h. cc, λ h. absurd (omega arith))
try_acquire_iff b (suc n) v =
    let a = v.accounted in (λ h. (omega arith, ground arith), λ h. ground arith)

-- The outcomes of an acquisition: a permit at the end of the list, or an error.
pub acquired :
    (b : Budget) (w : ℕ)
    → IsBudget b
    → (try_acquire b (pos w) ≡ ok (grant b (b.used + w) w)) × IsBudget (grant b (b.used + w) w).1
      ⊎ ((e : Failure) × (try_acquire b (pos w) ≡ err e))
unfolding try_acquire acquire_positive
acquired b zero v = inr (invalid_weight, refl)
acquired b (suc n) v = elim (Bool-cases (ltb b.capacity (suc n))) [
  | inl large ↦ inr (invalid_weight, rw large)
  | inr small ↦ elim (Bool-cases (ltb (b.capacity - suc n) b.used)) [
    | inl full ↦ inr (queue_full, rw (small, full))
    | inr fits ↦ inl (
      rw (small, fits),
      grant-IsBudget b (b.used + suc n) (suc n) (omega (arith, v.accounted)) (ground arith)
          (omega arith) v.weighted,
    )
  ]
]
