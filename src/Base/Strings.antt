-- ===== src/Base/Strings.antt =====
-- Go's strings as lists of bytes, with their comparison.
use Prim.Native.Nat.{ℕ}
use mathlib.Core.Path.{◌≡◌, refl}
use mathlib.Core.Bool.{Bool, true, false, ◌&&◌}
use mathlib.Core.List.{List, [], ◌∷◌}
use native.Mathlib.Omega.{arith}
use walite.Base.Tests.{ltb, ◌==◌, if◌then◌else◌}

abbrev pub Bytes : Type 0
Bytes = List ℕ

unfoldable pub bytes_eq : Bytes → Bytes → Bool
bytes_eq [] [] = true
bytes_eq [] (y ∷ ys) = false
bytes_eq (x ∷ xs) [] = false
bytes_eq (x ∷ xs) (y ∷ ys) = (x == y) && bytes_eq xs ys

-- Go's `<` on strings: the first byte that differs decides.
unfoldable pub bytes_lt : Bytes → Bytes → Bool
bytes_lt [] [] = false
bytes_lt [] (y ∷ ys) = true
bytes_lt (x ∷ xs) [] = false
bytes_lt (x ∷ xs) (y ∷ ys) = if ltb x y then true else (x == y) && bytes_lt xs ys

pub bytes_eq-eq : (xs ys : Bytes) → bytes_eq xs ys ≡ true → xs ≡ ys
unfolding bytes_eq
bytes_eq-eq [] [] h = refl
bytes_eq-eq [] (y ∷ ys) h = cc
bytes_eq-eq (x ∷ xs) [] h = cc
bytes_eq-eq (x ∷ xs) (y ∷ ys) h = ground (arith, bytes_eq-eq xs ys)

pub bytes_eq_refl : (xs : Bytes) → bytes_eq xs xs ≡ true
unfolding bytes_eq
bytes_eq_refl [] = refl
bytes_eq_refl (x ∷ xs) = ground (arith, bytes_eq_refl xs)

pub bytes_eq_sym : (xs ys : Bytes) → bytes_eq xs ys ≡ bytes_eq ys xs
unfolding bytes_eq
bytes_eq_sym [] [] = refl
bytes_eq_sym [] (y ∷ ys) = refl
bytes_eq_sym (x ∷ xs) [] = refl
bytes_eq_sym (x ∷ xs) (y ∷ ys) = ground (arith, bytes_eq_sym xs ys)

pub bytes_lt_irrefl : (xs : Bytes) → bytes_lt xs xs ≡ false
unfolding bytes_lt
bytes_lt_irrefl [] = refl
bytes_lt_irrefl (x ∷ xs) = ground (arith, bytes_lt_irrefl xs)

pub bytes_lt_trans :
    (xs ys zs : Bytes) → bytes_lt xs ys ≡ true → bytes_lt ys zs ≡ true → bytes_lt xs zs ≡ true
unfolding bytes_lt
bytes_lt_trans [] [] zs p q = cc
bytes_lt_trans [] (y ∷ ys) [] p q = cc
bytes_lt_trans [] (y ∷ ys) (z ∷ zs) p q = refl
bytes_lt_trans (x ∷ xs) [] zs p q = cc
bytes_lt_trans (x ∷ xs) (y ∷ ys) [] p q = cc
bytes_lt_trans (x ∷ xs) (y ∷ ys) (z ∷ zs) p q = ground (arith, bytes_lt_trans xs ys zs)

pub bytes_lt_tri : (xs ys : Bytes) → bytes_lt xs ys ≡ false → bytes_lt ys xs ≡ false → xs ≡ ys
unfolding bytes_lt
bytes_lt_tri [] [] p q = refl
bytes_lt_tri [] (y ∷ ys) p q = cc
bytes_lt_tri (x ∷ xs) [] p q = cc
bytes_lt_tri (x ∷ xs) (y ∷ ys) p q = ground (arith, bytes_lt_tri xs ys)

pub bytes_lt_asymm : (xs ys : Bytes) → bytes_lt xs ys ≡ true → bytes_lt ys xs ≡ false
unfolding bytes_lt
bytes_lt_asymm [] [] p = cc
bytes_lt_asymm [] (y ∷ ys) p = refl
bytes_lt_asymm (x ∷ xs) [] p = cc
bytes_lt_asymm (x ∷ xs) (y ∷ ys) p = ground (arith, bytes_lt_asymm xs ys)

-- Not to be less is transitive.
pub bytes_lt_chain :
    (xs ys zs : Bytes) → bytes_lt xs ys ≡ false → bytes_lt ys zs ≡ false → bytes_lt xs zs ≡ false
unfolding bytes_lt
bytes_lt_chain [] [] zs p q = q
bytes_lt_chain [] (y ∷ ys) zs p q = cc
bytes_lt_chain (x ∷ xs) [] [] p q = refl
bytes_lt_chain (x ∷ xs) [] (z ∷ zs) p q = cc
bytes_lt_chain (x ∷ xs) (y ∷ ys) [] p q = refl
bytes_lt_chain (x ∷ xs) (y ∷ ys) (z ∷ zs) p q = ground (arith, bytes_lt_chain xs ys zs)
