-- ===== src/Service/Budget/Settle.antt =====
-- Which permits a release returns, and what an acquisition or a replacement gives out.
use walite.Base.{
  ℕ, zero, suc, ◌==◌, ◌-◌, ◌<◌, ◌≡◌, refl, ◌∙◌, sym, ap, pos, Bool, true, false, ◌||◌, List, [],
  ◌∷◌, ◌++◌, Result, ok, err, length, get_elem?, set, length-set, Option, none, some, arith,
  Option-cases, Bool-cases, inl, inr, ltb, ◌&&◌,
}
use walite.Service.Failure.{Failure}
use walite.Service.Budget.{
  Budget, Permit, spend, release, release_permit, acquire_positive, try_acquire, replace,
  replace_positive, replace_permit,
}

-- A permit that is released if the test holds, and as it was otherwise.
abbrev pub settled : Bool → Option Permit → Option Permit
settled false p = p
settled true none = none
settled true (some p) = some (spend p)

-- The place names the permit.
abbrev pub is_named : Option ℕ → ℕ → Bool
is_named none k = false
is_named (some i) k = i == k

pub settled-or : (a b : Bool) (p : Option Permit) → settled a (settled b p) ≡ settled (b || a) p
settled-or false false p = refl
settled-or true false p = refl
settled-or false true none = refl
settled-or true true none = refl
settled-or false true (some p) = refl
settled-or true true (some p) = refl

get_elem?-spent :
    (ps : List Permit) (i k : ℕ) (p : Permit)
    → get_elem? ps i ≡ some p
    → get_elem? (set ps i (spend p)) k ≡ settled (i == k) (get_elem? ps k)
get_elem?-spent [] i k p e = cc
get_elem?-spent (q ∷ ps) zero zero p e =
    let same : p ≡ q = ground arith in ap (λ r. some (spend r)) same
get_elem?-spent (q ∷ ps) zero (suc k) p e =
    let other : (0 == suc k) ≡ false = ground arith in
    sym (ap (λ b. settled b (get_elem? ps k)) other)
get_elem?-spent (q ∷ ps) (suc i) zero p e =
    let other : (suc i == 0) ≡ false = ground arith in sym (ap (λ b. settled b (some q)) other)
get_elem?-spent (q ∷ ps) (suc i) (suc k) p e =
    let same : (i == k) ≡ (suc i == suc k) = ground arith in
    get_elem?-spent ps i k p e ∙ ap (λ b. settled b (get_elem? ps k)) same

-- A place without a permit stays without one.
settled-absent :
    (ps : List Permit) (i k : ℕ)
    → get_elem? ps i ≡ none
    → get_elem? ps k ≡ settled (i == k) (get_elem? ps k)
settled-absent [] i k e = elim (Bool-cases (i == k)) [ inl h ↦ rw h refl | inr h ↦ rw h refl ]
settled-absent (q ∷ ps) zero k e = cc
settled-absent (q ∷ ps) (suc i) zero e =
    let other : (suc i == 0) ≡ false = ground arith in sym (ap (λ b. settled b (some q)) other)
settled-absent (q ∷ ps) (suc i) (suc k) e =
    let same : (i == k) ≡ (suc i == suc k) = ground arith in
    settled-absent ps i k e ∙ ap (λ b. settled b (get_elem? ps k)) same

set-same :
    (ps : List Permit) (i : ℕ) (p q : Permit) → get_elem? ps i ≡ some p → q ≡ p → set ps i q ≡ ps
set-same [] i p q e h = cc
set-same (r ∷ ps) zero p q e h = let same : r ≡ p = ground arith in ap (λ u. u ∷ ps) (h ∙ sym same)
set-same (r ∷ ps) (suc i) p q e h = ap (λ u. r ∷ u) (set-same ps i p q e h)

spend-released : (p : Permit) → p.released ≡ true → spend p ≡ p
spend-released p h = λ j. record { weight = p.weight; released = sym h j }

release_permit-spent :
    (b : Budget) (i : ℕ) (p : Permit)
    → get_elem? b.permits i ≡ some p
    → (k : ℕ)
    → get_elem? (release_permit b i p).0.permits k ≡ get_elem? (set b.permits i (spend p)) k
unfolding release_permit
release_permit-spent b i p e k = elim (Bool-cases p.released) [
  | inl gone ↦
      rw gone (
        ap (λ ps. get_elem? ps k)
          (sym (set-same b.permits i p (spend p) e (spend-released p gone))))
  | inr held ↦ elim (Bool-cases (p.weight == 0 || ltb b.used p.weight)) [
    | inl odd ↦ rw (held, odd)
    | inr usual ↦ rw (held, usual)
  ]
]

-- A release returns the permit of its place and no other.
pub release-settled :
    (b : Budget) (i k : ℕ)
    → get_elem? (release b i).0.permits k ≡ settled (i == k) (get_elem? b.permits k)
unfolding release
release-settled b i k = elim (Option-cases (get_elem? b.permits i)) [
  | inl missing ↦ rw (missing, release) (settled-absent b.permits i k missing)
  | inr (p, e) ↦
      rw (e, release) (release_permit-spent b i p e k ∙ get_elem?-spent b.permits i k p e)
]

-- What a call gave out: a new permit of the weight, instead of the named one.
pub record Gives (b : Budget) (old : Option ℕ) (w : ℕ) (r : ℕ × Budget) : Type 0 where
  pub given : get_elem? r.1.permits r.0 ≡ some (record { weight = w; released = false })
  pub others :
      (k : ℕ)
      → k < length b.permits
      → get_elem? r.1.permits k ≡ settled (is_named old k) (get_elem? b.permits k)

abbrev pub Granted : Budget → Option ℕ → ℕ → Result Failure (ℕ × Budget) → Type 0
Granted b old w (ok r) = Gives b old w r
Granted b old w (err e) = Unit {0}

get_elem?-append_last :
    (ps : List Permit) (p : Permit) → get_elem? (ps ++ (p ∷ [])) (length ps) ≡ some p
get_elem?-append_last [] p = refl
get_elem?-append_last (q ∷ ps) p = get_elem?-append_last ps p

get_elem?-append_first :
    (ps qs : List Permit) (k : ℕ) → k < length ps → get_elem? (ps ++ qs) k ≡ get_elem? ps k
get_elem?-append_first [] qs k h = absurd (omega arith)
get_elem?-append_first (p ∷ ps) qs zero h = refl
get_elem?-append_first (p ∷ ps) qs (suc k) h = get_elem?-append_first ps qs k (omega arith)

acquire_positive-Granted : (b : Budget) (w : ℕ) → Granted b none w (acquire_positive b w)
unfolding acquire_positive
acquire_positive-Granted b w = elim (Bool-cases (ltb b.capacity w)) [
  | inl large ↦ rw large tt
  | inr small ↦ elim (Bool-cases (ltb (b.capacity - w) b.used)) [
    | inl full ↦ rw (small, full) tt
    | inr fits ↦
        rw (small, fits)
          (record {
            given = get_elem?-append_last b.permits _;
            others = λ k h. get_elem?-append_first b.permits _ k h;
          })
  ]
]

pub try_acquire-Granted : (b : Budget) (w : ℕ) → Granted b none w (try_acquire b (pos w))
unfolding try_acquire
try_acquire-Granted b zero = tt
try_acquire-Granted b (suc n) = acquire_positive-Granted b (suc n)

replace_permit-Granted :
    (b : Budget) (i : ℕ) (p : Permit) (w : ℕ)
    → get_elem? b.permits i ≡ some p
    → Granted b (some i) w (replace_permit b i p w)
unfolding replace_permit
replace_permit-Granted b i p w e = elim (Bool-cases (ltb b.capacity w)) [
  | inl large ↦ rw large tt
  | inr small ↦ elim (Bool-cases p.released) [
    | inl gone ↦ rw (small, gone) tt
    | inr held ↦ elim (Bool-cases (ltb p.weight w && ltb (b.capacity - (w - p.weight)) b.used)) [
      | inl full ↦ rw (small, held, full) tt
      | inr fits ↦
          let size = length-set b.permits i (spend p) in
          rw (small, held, fits)
            (record {
              given = get_elem?-append_last (set b.permits i (spend p)) _;
              others = λ k h.
                  get_elem?-append_first (set b.permits i (spend p)) _ k (omega (arith, size))
                  ∙ get_elem?-spent b.permits i k p e;
            })
    ]
  ]
]

replace_positive-Granted : (b : Budget) (i w : ℕ) → Granted b (some i) w (replace_positive b i w)
unfolding replace_positive
replace_positive-Granted b i w = elim (Option-cases (get_elem? b.permits i)) [
  | inl missing ↦ rw (missing, Granted, replace_positive) tt
  | inr (p, e) ↦ rw (e, Granted, replace_positive) (replace_permit-Granted b i p w e)
]

pub replace-Granted : (b : Budget) (i w : ℕ) → Granted b (some i) w (replace b i (pos w))
unfolding replace
replace-Granted b i zero = tt
replace-Granted b i (suc n) = replace_positive-Granted b i (suc n)
