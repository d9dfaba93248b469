-- ===== src/Config/Ranges.antt =====
-- When the limits of single values are met.
use walite.Base.{◌≡◌, ◌↔◌, pos, ◌≤ℤ◌, ◌<ℤ◌, List, [], ◌∷◌, ok, arith, All, All-imp, refl, >>-eq-ok}
use walite.Config.{NumericLimit, validate_positive, validate_bounds, validate_ranges}

abbrev pub IsPositive : NumericLimit → Type 0
IsPositive l = pos 0 <ℤ l.value

abbrev pub InRange : NumericLimit → Type 0
InRange l = (pos 0 <ℤ l.value) × (pos l.min ≤ℤ l.value) × (l.value ≤ℤ pos l.max)

pub validate_positive_iff :
    (limits : List NumericLimit) → (validate_positive limits ≡ ok tt) ↔ All IsPositive limits
unfolding validate_positive
validate_positive_iff [] = (λ h. tt, λ h. refl)
validate_positive_iff (l ∷ limits) =
    let rest = validate_positive_iff limits in
    (
      λ h. (ground arith, rest.0 (ground arith)),
      λ h. let last = rest.1 h.1 in let first = h.0 in ground arith,
    )

validate_bounds-ok :
    (limits : List NumericLimit)
    → validate_bounds limits ≡ ok tt
    → All (λ l. (pos l.min ≤ℤ l.value) × (l.value ≤ℤ pos l.max)) limits
unfolding validate_bounds
validate_bounds-ok [] h = tt
validate_bounds-ok (l ∷ limits) h =
    ((ground arith, ground arith), validate_bounds-ok limits (ground arith))

ok-validate_bounds :
    (limits : List NumericLimit) → All InRange limits → validate_bounds limits ≡ ok tt
unfolding validate_bounds
ok-validate_bounds [] h = refl
ok-validate_bounds (l ∷ limits) h =
    let rest = ok-validate_bounds limits h.1 in let low = h.0.1 in let high = h.0.2 in ground arith

zip_ranges :
    (limits : List NumericLimit)
    → All IsPositive limits
    → All (λ l. (pos l.min ≤ℤ l.value) × (l.value ≤ℤ pos l.max)) limits
    → All InRange limits
zip_ranges [] h k = tt
zip_ranges (l ∷ limits) h k = ((h.0, k.0.0, k.0.1), zip_ranges limits h.1 k.1)

pub validate_ranges_iff :
    (limits : List NumericLimit) → (validate_ranges limits ≡ ok tt) ↔ All InRange limits
unfolding validate_ranges
validate_ranges_iff limits = (
  λ h.
      let (positive, bounds) = >>-eq-ok (validate_positive limits) (validate_bounds limits) h in
      zip_ranges limits ((validate_positive_iff limits).0 positive)
        (validate_bounds-ok limits bounds),
  λ h.
      rw ((validate_positive_iff limits).1 (All-imp InRange IsPositive (λ l r. r.0) limits h))
        (ok-validate_bounds limits h),
)
