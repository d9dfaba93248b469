-- ===== src/Base/Filter.antt =====
-- Filters of sorted lists, and lists in which a relation holds between the elements in their order.
use Prim.Native.Nat.{ℕ, zero, suc}
use mathlib.Core.Path.{◌≡◌, refl, sym, ◌∙◌}
use mathlib.Core.Bool.{Bool, true, false}
use mathlib.Core.Logic.{inl, inr}
use mathlib.Core.List.{List, [], ◌∷◌, map}
use walite.Base.Tests.{Bool-cases}
use walite.Base.Lists.{All, All-imp, All-filter_by, All-zip, All-take, filter_by, take}
use walite.Base.Sort.{
  AllPairs, All-sort_by, insert_by, sort_by, All-insert_by, IsSorted, sort_by-IsSorted, NotAfter,
}

module _ {ℓ} {A : Type ℓ} where
  pub filter_by-none :
      (p : A → Bool) (xs : List A) → All (λ x. p x ≡ false) xs → filter_by p xs ≡ []
  filter_by-none p [] h = refl
  filter_by-none p (x ∷ xs) h = rw (h.0, filter_by-none p xs h.1)

  -- A weaker filter before a stronger one does nothing.
  pub filter_by-filter_by :
      (q p : A → Bool)
      → ((x : A) → q x ≡ true → p x ≡ true)
      → (xs : List A) → filter_by q (filter_by p xs) ≡ filter_by q xs
  filter_by-filter_by q p f [] = refl
  filter_by-filter_by q p f (x ∷ xs) = elim (Bool-cases (q x)) [
    | inl e ↦ rw (f x e, e, filter_by-filter_by q p f xs)
    | inr e ↦ elim (Bool-cases (p x)) [
      | inl d ↦ rw (d, e, filter_by-filter_by q p f xs)
      | inr d ↦ rw (d, e, filter_by-filter_by q p f xs)
    ]
  ]

  module _ {κ} (R : A → A → Type κ) where
    pub AllPairs-filter_by :
        (p : A → Bool) (xs : List A) → AllPairs R xs → AllPairs R (filter_by p xs)
    AllPairs-filter_by p [] h = tt
    AllPairs-filter_by p (x ∷ xs) h = elim (Bool-cases (p x)) [
      | inl e ↦ rw e (All-filter_by (R x) p xs h.0, AllPairs-filter_by p xs h.1)
      | inr e ↦ rw e (AllPairs-filter_by p xs h.1)
    ]

    pub AllPairs-take : (n : ℕ) (xs : List A) → AllPairs R xs → AllPairs R (take n xs)
    AllPairs-take zero xs h = tt
    AllPairs-take (suc n) [] h = tt
    AllPairs-take (suc n) (x ∷ xs) h = (All-take (R x) n xs h.0, AllPairs-take n xs h.1)

  pub AllPairs-zip {κ μ ν} :
      (P : A → A → Type κ) (Q : A → A → Type μ) (R : A → A → Type ν)
      → ((x y : A) → P x y → Q x y → R x y)
      → (xs : List A) → AllPairs P xs
      → AllPairs Q xs
      → AllPairs R xs
  AllPairs-zip P Q R f [] h k = tt
  AllPairs-zip P Q R f (x ∷ xs) h k =
      (All-zip (P x) (Q x) (R x) (f x) xs h.0 k.0, AllPairs-zip P Q R f xs h.1 k.1)

module _ {ℓ} {A : Type ℓ} (less : A → A → Bool) where
  module _ {κ} (R : A → A → Type κ) (symmetric : (x y : A) → R x y → R y x) where
    insert_by-AllPairs :
        (x : A) (ys : List A) → All (R x) ys → AllPairs R ys → AllPairs R (insert_by less x ys)
    unfolding insert_by
    insert_by-AllPairs x [] a h = (tt, tt)
    insert_by-AllPairs x (y ∷ ys) a h = elim (Bool-cases (less y x)) [
      | inl e ↦
          rw e
            (All-insert_by less (R y) x ys (symmetric x y a.0) h.0, insert_by-AllPairs x ys a.1 h.1)
      | inr e ↦ rw e (a, h)
    ]

    pub sort_by-AllPairs : (xs : List A) → AllPairs R xs → AllPairs R (sort_by less xs)
    unfolding sort_by
    sort_by-AllPairs [] h = tt
    sort_by-AllPairs (x ∷ xs) h =
        insert_by-AllPairs x (sort_by less xs) (All-sort_by less (R x) xs h.0)
          (sort_by-AllPairs xs h.1)

  module _ (asymm : (x y : A) → less x y ≡ true → less y x ≡ false)
      (chain : (x y z : A) → less y x ≡ false → less z y ≡ false → less z x ≡ false)
      (p : A → Bool) where
    -- What goes before a list still does when elements are dropped.
    insert_by-first :
        (x : A) (ys : List A) → All (NotAfter less x) ys → insert_by less x ys ≡ x ∷ ys
    unfolding insert_by
    insert_by-first x [] h = refl
    insert_by-first x (y ∷ ys) h = rw h.0

    filter_by-insert_by_in :
        (x : A) (ys : List A)
        → IsSorted less ys
        → p x ≡ true
        → filter_by p (insert_by less x ys) ≡ insert_by less x (filter_by p ys)
    unfolding insert_by
    filter_by-insert_by_in x [] h e = rw e
    filter_by-insert_by_in x (y ∷ ys) h e = elim (Bool-cases (less y x)) [
      | inl b ↦ elim (Bool-cases (p y)) [
        | inl d ↦ rw (b, d, b, filter_by-insert_by_in x ys h.1 e)
        | inr d ↦ rw (b, d, filter_by-insert_by_in x ys h.1 e)
      ]
      | inr b ↦
          rw (b, e)
            (sym (
              insert_by-first x (filter_by p (y ∷ ys)) (
                All-filter_by (NotAfter less x) p (y ∷ ys) (
                  b,
                  All-imp (NotAfter less y) (NotAfter less x) (λ z k. chain x y z b k) ys h.0,
                ))))
    ]

    filter_by-insert_by_out :
        (x : A) (ys : List A) → p x ≡ false → filter_by p (insert_by less x ys) ≡ filter_by p ys
    unfolding insert_by
    filter_by-insert_by_out x [] e = rw e
    filter_by-insert_by_out x (y ∷ ys) e = elim (Bool-cases (less y x)) [
      | inl b ↦ rw (b, filter_by-insert_by_out x ys e)
      | inr b ↦ rw (b, e)
    ]

    -- To filter and to sort commute.
    pub filter_by-sort_by :
        (xs : List A) → filter_by p (sort_by less xs) ≡ sort_by less (filter_by p xs)
    unfolding sort_by
    filter_by-sort_by [] = refl
    filter_by-sort_by (x ∷ xs) = elim (Bool-cases (p x)) [
      | inl e ↦
          filter_by-insert_by_in x (sort_by less xs) (sort_by-IsSorted less asymm chain xs) e
          ∙ rw (e, filter_by-sort_by xs)
      | inr e ↦ filter_by-insert_by_out x (sort_by less xs) e ∙ rw (e, filter_by-sort_by xs)
    ]

module _ {ℓ κ} {A : Type ℓ} {B : Type κ} (f : A → B) where
  pub All-map {μ} : (P : B → Type μ) (xs : List A) → All (λ x. P (f x)) xs → All P (map f xs)
  All-map P [] h = tt
  All-map P (x ∷ xs) h = (h.0, All-map P xs h.1)

  pub AllPairs-map {μ} :
      (R : B → B → Type μ) (xs : List A)
      → AllPairs (λ x y. R (f x) (f y)) xs
      → AllPairs R (map f xs)
  AllPairs-map R [] h = tt
  AllPairs-map R (x ∷ xs) h = (All-map (R (f x)) xs h.0, AllPairs-map R xs h.1)

pub AllPairs-imp {ℓ κ μ} :
    {A : Type ℓ} (R : A → A → Type κ) (Q : A → A → Type μ)
    → ((x y : A) → R x y → Q x y)
    → (xs : List A) → AllPairs R xs
    → AllPairs Q xs
AllPairs-imp R Q f [] h = tt
AllPairs-imp R Q f (x ∷ xs) h = (All-imp (R x) (Q x) (f x) xs h.0, AllPairs-imp R Q f xs h.1)
