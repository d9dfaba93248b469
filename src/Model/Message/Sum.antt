-- ===== src/Model/Message/Sum.antt =====
-- `checkedByteSum` against the sum without a limit.
use walite.Base.{
  ℕ, ◌+◌, ◌≤◌, ◌-◌, ℤ, pos, negsuc, false, List, [], ◌∷◌, ◌≡◌, ◌↔◌, refl, arith, ltb, some,
  Bool-cases, inl, inr, subst, All,
}
use walite.Model.Message.{checked_byte_sum, checked_byte_sum_from, max_int}

-- The sum of parts none of which is negative.
pub data Adds : ℕ → List ℤ → ℕ → Type 0 where
  adds_none : {total : ℕ} → Adds total [] total
  adds_part :
      {total part n : ℕ} {parts : List ℤ}
      → Adds (total + part) parts n
      → Adds total (pos part ∷ parts) n

-- The parts are `int`s, of which none exceeds the largest.
abbrev pub IsInt : ℤ → Type 0
IsInt (pos part) = part ≤ max_int
IsInt (negsuc part) = Unit {0}

Adds-le : {total n : ℕ} (parts : List ℤ) → Adds total parts n → total ≤ n
Adds-le parts adds_none = omega arith
Adds-le parts (adds_part {parts = rest} a) = omega (arith, Adds-le rest a)

sum-Adds :
    (total : ℕ) (parts : List ℤ) {n : ℕ}
    → All IsInt parts
    → total ≤ max_int
    → checked_byte_sum_from total parts ≡ some n
    → Adds total parts n × (n ≤ max_int)
unfolding checked_byte_sum_from
sum-Adds total [] {n} ints h e =
    let same : total ≡ n = ground arith in (subst (Adds total []) same adds_none, omega arith)
sum-Adds total (pos part ∷ parts) ints h e = elim (Bool-cases (ltb (max_int - part) total)) [
  | inl over ↦ absurd (ground arith)
  | inr fits ↦
      let (a, small) =
        sum-Adds (total + part) parts ints.1 (ground (arith, ints.0)) (ground arith) in
      (adds_part a, small)
]
sum-Adds total (negsuc part ∷ parts) ints h e = cc

Adds-sum :
    (total : ℕ) {n : ℕ} (parts : List ℤ)
    → Adds total parts n
    → n ≤ max_int
    → checked_byte_sum_from total parts ≡ some n
unfolding checked_byte_sum_from
Adds-sum total [] adds_none h = refl
Adds-sum total (pos part ∷ parts) (adds_part a) h =
    let l = Adds-le parts a in
    let fits : ltb (max_int - part) total ≡ false = ground arith in
    rw fits (Adds-sum (total + part) parts a h)
Adds-sum total (negsuc part ∷ parts) a h = elim a [ ]

-- The checked sum of any `int`s is n exactly if none of them is negative, their sum is n, and n is
-- an `int`.
pub checked_byte_sum_iff :
    (parts : List ℤ) (n : ℕ)
    → All IsInt parts
    → (checked_byte_sum parts ≡ some n) ↔ (Adds 0 parts n × (n ≤ max_int))
unfolding checked_byte_sum
checked_byte_sum_iff parts n ints =
    (λ e. sum-Adds 0 parts ints (omega arith) e, λ h. Adds-sum 0 parts h.0 h.1)
