-- ===== src/Service/Budget/Invariant.antt =====
-- A budget's count is the sum of the permits that are out, and never exceeds the capacity.
use walite.Base.{
  ℕ, zero, suc, ◌+◌, ◌≤◌, ◌<◌, ◌≡◌, ◌∙◌, sym, ap, ℤ, pos, negsuc, false, List, [], ◌∷◌, ◌++◌, ok,
  length, get_elem?, set, All, All-append, some, arith, if◌then◌else◌,
}
use walite.Service.Budget.{Budget, Permit, spend, positive, new_byte_budget, grant}

-- The bytes that unreleased permits stand for.
abbrev pub live : List Permit → ℕ
live [] = 0
live (p ∷ ps) = (if p.released then 0 else p.weight) + live ps

abbrev pub HasWeight : Permit → Type 0
HasWeight p = 0 < p.weight

pub record IsBudget (b : Budget) : Type 0 where
  pub accounted : b.used ≡ live b.permits
  pub bounded : b.used ≤ b.capacity
  pub weighted : All HasWeight b.permits

pub live-append : (ps qs : List Permit) → live (ps ++ qs) ≡ live ps + live qs
live-append [] qs = omega arith
live-append (p ∷ ps) qs = omega (arith, live-append ps qs)

pub live-spend :
    (ps : List Permit) (i : ℕ) (p : Permit)
    → get_elem? ps i ≡ some p
    → p.released ≡ false
    → live (set ps i (spend p)) + p.weight ≡ live ps
live-spend [] i p e h = absurd (ground arith)
live-spend (q ∷ ps) zero p e h = let same : q ≡ p = ground arith in rw (same, h) (omega arith)
live-spend (q ∷ ps) (suc i) p e h = omega (arith, live-spend ps i p e h)

-- A live permit's weight is part of what is used.
pub weight-le-live :
    (ps : List Permit) (i : ℕ) (p : Permit)
    → get_elem? ps i ≡ some p
    → p.released ≡ false
    → p.weight ≤ live ps
weight-le-live ps i p e h = omega (arith, live-spend ps i p e h)

pub get_elem?-lt {ℓ} :
    {A : Type ℓ} (xs : List A) (i : ℕ) {a : A} → get_elem? xs i ≡ some a → i < length xs
get_elem?-lt [] i e = absurd (grind arith)
get_elem?-lt (x ∷ xs) zero e = omega arith
get_elem?-lt (x ∷ xs) (suc i) e = omega (arith, get_elem?-lt xs i e)

pub grant-IsBudget :
    (b : Budget) (used weight : ℕ)
    → used ≡ live b.permits + weight
    → used ≤ b.capacity
    → 0 < weight
    → All HasWeight b.permits
    → IsBudget (grant b used weight).1
grant-IsBudget b used weight e h w v = record {
  accounted = e ∙ sym (live-append b.permits _ ∙ ap (λ k. live b.permits + k) (omega arith));
  bounded = h;
  weighted = All-append HasWeight b.permits _ v (w, tt);
}

pub positive-pos : (z : ℤ) (n : ℕ) → positive z ≡ ok n → 0 < n
unfolding positive
positive-pos (pos zero) n e = cc
positive-pos (pos (suc k)) n e = ground arith
positive-pos (negsuc k) n e = cc

pub new_byte_budget-IsBudget :
    (capacity : ℤ) {b : Budget} → new_byte_budget capacity ≡ ok b → IsBudget b × (b.used ≡ 0)
unfolding new_byte_budget positive
new_byte_budget-IsBudget (pos zero) e = cc
new_byte_budget-IsBudget (pos (suc k)) e = ground arith
new_byte_budget-IsBudget (negsuc k) e = cc
