-- ===== src/Base/Results.antt =====
-- A value or an error, as the pairs `(value, error)` that the Go functions return.
use mathlib.Core.Path.{◌≡◌, refl, subst}
use mathlib.Core.Logic.{◌⊎◌, inl, inr}
use mathlib.Core.Bool.{Bool, true, false, not}

pub data Result {ℓ} (E : Type 0) (A : Type ℓ) : Type ℓ where
  ok : A → Result E A
  err : E → Result E A

infixl 5 ◌>>=◌ ◌>>◌
abbrev pub ◌>>=◌ {ℓ κ} :
    {E : Type 0} {A : Type ℓ} {B : Type κ} → Result E A → (A → Result E B) → Result E B
ok value >>= next = next value
err failure >>= next = err failure

abbrev pub ◌>>◌ {ℓ} : {E : Type 0} {B : Type ℓ} → Result E (Unit {0}) → Result E B → Result E B
m >> k = m >>= λ _. k

-- `if bad { return err }`
abbrev pub reject_if : {E : Type 0} → Bool → E → Result E (Unit {0})
reject_if true e = err e
reject_if false e = ok tt

abbrev pub is_ok {ℓ} : {E : Type 0} {A : Type ℓ} → Result E A → Bool
is_ok (ok a) = true
is_ok (err e) = false

-- Inversion of a successful bind, for proofs where the parts stay shut.
pub >>=-eq-ok {ℓ κ} :
    {E : Type 0} {A : Type ℓ} {B : Type κ} (first : Result E A) (next : A → Result E B) {out : B}
    → (first >>= next) ≡ ok out
    → (value : A) × (first ≡ ok value) × (next value ≡ ok out)
>>=-eq-ok (err failure) next h = cc
>>=-eq-ok (ok value) next h = (value, refl, h)

-- A check that passed, and what followed it.
pub >>-eq-ok {ℓ} :
    {E : Type 0} {B : Type ℓ} (m : Result E (Unit {0})) (k : Result E B) {b : B}
    → (m >> k) ≡ ok b
    → (m ≡ ok tt) × (k ≡ ok b)
>>-eq-ok (ok u) k h = (refl, h)
>>-eq-ok (err e) k h = (cc, cc)

-- A guard that let the rest run.
pub reject_if-then {ℓ} :
    {E : Type 0} {B : Type ℓ} (b : Bool) (e : E) (k : Result E B) {r : B}
    → (reject_if b e >> k) ≡ ok r
    → (b ≡ false) × (k ≡ ok r)
reject_if-then true e k h = (cc, cc)
reject_if-then false e k h = (refl, h)

pub not-false→true : (b : Bool) → not b ≡ false → b ≡ true
not-false→true true h = refl
not-false→true false h = cc

pub reject_if-ok : {E : Type 0} (b : Bool) (e : E) → reject_if b e ≡ ok tt → b ≡ false
reject_if-ok true e h = cc
reject_if-ok false e h = refl

pub Result-cases {ℓ} :
    {E : Type 0} {A : Type ℓ} (r : Result E A) → ((e : E) × (r ≡ err e)) ⊎ ((a : A) × (r ≡ ok a))
Result-cases (ok a) = inr (a, refl)
Result-cases (err e) = inl (e, refl)

-- What holds of a value, if there is one.
abbrev pub WhenOk {ℓ κ} : {E : Type 0} {A : Type ℓ} → (A → Type κ) → Result E A → Type κ
WhenOk P (ok a) = P a
WhenOk P (err e) = Unit

pub WhenOk-ok {ℓ κ} :
    {E : Type 0} {A : Type ℓ} (P : A → Type κ) (r : Result E A) {a : A}
    → WhenOk P r
    → r ≡ ok a
    → P a
WhenOk-ok P r h e = subst (WhenOk P) e h

pub WhenOk->>= {ℓ κ μ ν} :
    {E : Type 0} {A : Type ℓ} {B : Type κ} (P : A → Type μ) (Q : B → Type ν) (r : Result E A)
    (next : A → Result E B)
    → WhenOk P r
    → ((a : A) → r ≡ ok a → P a → WhenOk Q (next a))
    → WhenOk Q (r >>= next)
WhenOk->>= P Q (ok a) next h k = k a refl h
WhenOk->>= P Q (err e) next h k = tt

pub WhenOk-after {ℓ κ ν} :
    {E : Type 0} {A : Type ℓ} {B : Type κ} (Q : B → Type ν) (r : Result E A) (next : A → Result E B)
    → ((a : A) → r ≡ ok a → WhenOk Q (next a))
    → WhenOk Q (r >>= next)
WhenOk-after Q (ok a) next k = k a refl
WhenOk-after Q (err e) next k = tt
