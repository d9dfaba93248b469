-- ===== src/Service/Budget.antt =====
-- The byte budget (internal/service/budget.go). A budget keeps the permits that it has given out, and
-- a permit is named by its place in that list, so that the flag `released` is shared by all who hold
-- it. A mutex makes each operation one step. The blocking `acquire` is not modelled.
pub mod Invariant
pub mod Steps
pub mod Settle
use walite.Base.{
  ℕ, zero, suc, ◌+◌, ◌-◌, ◌==◌, ℤ, pos, negsuc, Bool, true, false, ◌&&◌, ◌||◌, List, [], ◌∷◌, ◌++◌,
  Result, ok, err, ltb, leb, length, get_elem?, set, if◌then◌else◌, Option, none, some,
}
use walite.Service.Failure.{Failure, invalid_weight, queue_full, permit_released}

-- `permit`; `weight` is positive, as it is tested before a permit is made.
pub record Permit : Type 0 where
  pub weight : ℕ
  pub released : Bool

-- The channels of capacity 1 hold a token or none.
pub record Budget : Type 0 where
  pub capacity : ℕ
  pub used : ℕ
  pub permits : List Permit
  pub wake : Bool
  pub state_wake : Bool
  pub waiter : Bool

-- An `int64` behind the test `weight <= 0`.
unfoldable pub positive : ℤ → Result Failure ℕ
positive (pos zero) = err invalid_weight
positive (pos (suc n)) = ok (suc n)
positive (negsuc n) = err invalid_weight

unfoldable pub new_byte_budget : ℤ → Result Failure Budget
new_byte_budget capacity = elim (positive capacity) [
  | err e ↦ err e
  | ok n ↦ ok (record {
    capacity = n;
    used = 0;
    permits = [];
    wake = false;
    state_wake = false;
    waiter = false;
  })
]

-- A new permit of the budget and its name.
abbrev pub grant : Budget → ℕ → ℕ → ℕ × Budget
grant b used weight = (
  length b.permits,
  record b {
    used = used;
    permits = b.permits ++ (record { weight = weight; released = false } ∷ []);
  },
)

unfoldable pub acquire_positive : Budget → ℕ → Result Failure (ℕ × Budget)
acquire_positive b weight =
    if ltb b.capacity weight
    then err invalid_weight
    else if ltb (b.capacity - weight) b.used
    then err queue_full
    else ok (grant b (b.used + weight) weight)

unfoldable pub try_acquire : Budget → ℤ → Result Failure (ℕ × Budget)
unfolding acquire_positive positive
try_acquire b weight = elim (positive weight) [ err e ↦ err e | ok w ↦ acquire_positive b w ]

abbrev pub spend : Permit → Permit
spend p = record p { released = true }

-- `replace` behind its tests for nil and for the new weight: `used` changes by the difference, and
-- shrinking wakes a waiter. `used` holds the old weight, so the subtraction does not stop at 0.
unfoldable pub replace_permit : Budget → ℕ → Permit → ℕ → Result Failure (ℕ × Budget)
replace_permit b i p weight =
    if ltb b.capacity weight
    then err invalid_weight
    else if p.released
    then err permit_released
    else if ltb p.weight weight && ltb (b.capacity - (weight - p.weight)) b.used
    then err queue_full
    else ok (
        grant
          (record b { permits = set b.permits i (spend p); wake = b.wake || ltb weight p.weight })
          (b.used + weight - p.weight) weight)

-- A permit of another budget, or nil, has no name here.
unfoldable pub replace_positive : Budget → ℕ → ℕ → Result Failure (ℕ × Budget)
unfolding replace_permit
replace_positive b i weight = elim (get_elem? b.permits i) [
  | none ↦ err invalid_weight
  | some p ↦ replace_permit b i p weight
]

unfoldable pub replace : Budget → ℕ → ℤ → Result Failure (ℕ × Budget)
unfolding replace_positive positive
replace b i weight = elim (positive weight) [ err e ↦ err e | ok w ↦ replace_positive b i w ]

-- `Release` behind its tests: the permit is spent before the amount is looked at.
unfoldable pub release_permit : Budget → ℕ → Permit → Budget × Option Failure
release_permit b i p =
    if p.released
    then (b, some permit_released)
    else if p.weight == 0 || ltb b.used p.weight
    then (record b { permits = set b.permits i (spend p) }, some permit_released)
    else (
      record b { used = b.used - p.weight; permits = set b.permits i (spend p); wake = true },
      none,
    )

-- The new budget and the error, `none` for nil.
unfoldable pub release : Budget → ℕ → Budget × Option Failure
unfolding release_permit
release b i = elim (get_elem? b.permits i) [
  | none ↦ (b, some permit_released)
  | some p ↦ release_permit b i p
]
