-- ===== src/Assoc.antt =====
-- Go's maps with string keys, as association lists; a map holds a key once. A `range` over a map
-- has no fixed order: what the code computes by one is modelled in the order of the list.
use walite.Base.{
  suc, ◌≡◌, refl, ◌∙◌, sym, ap, subst, false, List, [], ◌∷◌, Bytes, bytes_eq, bytes_eq-eq,
  bytes_eq_refl, bytes_eq_sym, ap₂, length, Option, none, some, All, if◌then◌else◌, arith,
  Bool-cases, inl, inr,
}

abbrev pub Assoc {ℓ} : Type ℓ → Type ℓ
Assoc V = List (Bytes × V)

module _ {ℓ} {V : Type ℓ} where
  unfoldable pub lookup : Bytes → Assoc V → Option V
  lookup k [] = none
  lookup k ((j, v) ∷ m) = if bytes_eq j k then some v else lookup k m

  unfoldable pub insert : Bytes → V → Assoc V → Assoc V
  insert k v [] = (k, v) ∷ []
  insert k v ((j, w) ∷ m) = if bytes_eq j k then (j, v) ∷ m else (j, w) ∷ insert k v m

  unfoldable pub erase : Bytes → Assoc V → Assoc V
  erase k [] = []
  erase k ((j, v) ∷ m) = if bytes_eq j k then m else (j, v) ∷ erase k m

  -- No key stands twice.
  abbrev pub HasUniqueKeys : Assoc V → Type ℓ
  HasUniqueKeys [] = Unit
  HasUniqueKeys ((j, v) ∷ m) = (lookup j m ≡ none) × HasUniqueKeys m

  pub lookup-insert :
      (k j : Bytes) (v : V) (m : Assoc V)
      → lookup j (insert k v m) ≡ (if bytes_eq k j then some v else lookup j m)
  unfolding lookup insert
  lookup-insert k j v [] = refl
  lookup-insert k j v ((i, w) ∷ m) = elim (Bool-cases (bytes_eq i k)) [
    | inl same ↦ let e = bytes_eq-eq i k same in rw (same, e) (ground arith)
    | inr other ↦ elim (Bool-cases (bytes_eq i j)) [
      | inl here ↦
          let apart : bytes_eq k j ≡ false =
            bytes_eq_sym k j ∙ ap (λ t. bytes_eq t k) (sym (bytes_eq-eq i j here)) ∙ other in
          rw (other, here, apart)
      | inr there ↦ rw (other, there) (lookup-insert k j v m)
    ]
  ]

  pub lookup-erase_ne :
      (k j : Bytes) (m : Assoc V) → bytes_eq k j ≡ false → lookup j (erase k m) ≡ lookup j m
  unfolding lookup erase
  lookup-erase_ne k j [] h = refl
  lookup-erase_ne k j ((i, w) ∷ m) h = elim (Bool-cases (bytes_eq i k)) [
    | inl same ↦
        let e = bytes_eq-eq i k same in
        let apart : bytes_eq i j ≡ false = ap (λ t. bytes_eq t j) e ∙ h in rw (same, apart)
    | inr other ↦ rw other (ground (arith, lookup-erase_ne k j m h))
  ]

  pub All-insert {κ} :
      (P : Bytes × V → Type κ) (k : Bytes) (v : V) (m : Assoc V)
      → All P m
      → P (k, v)
      → All P (insert k v m)
  unfolding insert
  All-insert P k v [] h p = (p, tt)
  All-insert P k v ((j, w) ∷ m) h p = elim (Bool-cases (bytes_eq j k)) [
    | inl same ↦ rw same (subst (λ t. P (t, v)) (sym (bytes_eq-eq j k same)) p, h.1)
    | inr other ↦ rw other (h.0, All-insert P k v m h.1 p)
  ]

  pub All-erase {κ} :
      (P : Bytes × V → Type κ) (k : Bytes) (m : Assoc V) → All P m → All P (erase k m)
  unfolding erase
  All-erase P k [] h = tt
  All-erase P k ((j, w) ∷ m) h = elim (Bool-cases (bytes_eq j k)) [
    | inl same ↦ rw same h.1
    | inr other ↦ rw other (h.0, All-erase P k m h.1)
  ]

  pub All-lookup {κ} :
      (P : Bytes × V → Type κ) (k : Bytes) (m : Assoc V) {v : V}
      → All P m
      → lookup k m ≡ some v
      → P (k, v)
  unfolding lookup
  All-lookup P k [] h e = cc
  All-lookup P k ((j, w) ∷ m) {v} h e = elim (Bool-cases (bytes_eq j k)) [
    | inl same ↦
        let there : w ≡ v = ground arith in
        subst P (ap₂ (λ a b. (a, b)) (bytes_eq-eq j k same) there) h.0
    | inr other ↦ All-lookup P k m h.1 (ground arith)
  ]

  pub length-insert_new :
      (k : Bytes) (v : V) (m : Assoc V) → lookup k m ≡ none → length (insert k v m) ≡ suc (length m)
  unfolding lookup insert
  length-insert_new k v [] e = refl
  length-insert_new k v ((j, w) ∷ m) e = ground (arith, length-insert_new k v m)

  pub length-insert_old :
      (k : Bytes) (v w : V) (m : Assoc V) → lookup k m ≡ some w → length (insert k v m) ≡ length m
  unfolding lookup insert
  length-insert_old k v w [] e = cc
  length-insert_old k v w ((j, u) ∷ m) e = ground (arith, length-insert_old k v w m)

  pub insert-HasUniqueKeys :
      (k : Bytes) (v : V) (m : Assoc V) → HasUniqueKeys m → HasUniqueKeys (insert k v m)
  unfolding insert lookup
  insert-HasUniqueKeys k v [] h = (refl, tt)
  insert-HasUniqueKeys k v ((j, w) ∷ m) h = elim (Bool-cases (bytes_eq j k)) [
    | inl same ↦ rw same h
    | inr other ↦
        rw other (
          lookup-insert k j v m ∙ (rw (bytes_eq_sym k j, other) h.0),
          insert-HasUniqueKeys k v m h.1,
        )
  ]

  lookup-erase-none : (k j : Bytes) (m : Assoc V) → lookup j m ≡ none → lookup j (erase k m) ≡ none
  unfolding lookup erase
  lookup-erase-none k j [] e = refl
  lookup-erase-none k j ((i, w) ∷ m) e = ground (arith, lookup-erase-none k j m)

  pub erase-HasUniqueKeys : (k : Bytes) (m : Assoc V) → HasUniqueKeys m → HasUniqueKeys (erase k m)
  unfolding erase
  erase-HasUniqueKeys k [] h = tt
  erase-HasUniqueKeys k ((j, w) ∷ m) h = elim (Bool-cases (bytes_eq j k)) [
    | inl same ↦ rw same h.1
    | inr other ↦ rw other (lookup-erase-none k j m h.0, erase-HasUniqueKeys k m h.1)
  ]

  pub lookup-erase_self : (k : Bytes) (m : Assoc V) → HasUniqueKeys m → lookup k (erase k m) ≡ none
  unfolding lookup erase
  lookup-erase_self k [] h = refl
  lookup-erase_self k ((j, w) ∷ m) h = elim (Bool-cases (bytes_eq j k)) [
    | inl same ↦ rw same (ap (λ t. lookup t m) (sym (bytes_eq-eq j k same)) ∙ h.0)
    | inr other ↦ rw (other) (ground (arith, lookup-erase_self k m h.1))
  ]

  pub length-erase :
      (k : Bytes) (m : Assoc V) (v : V) → lookup k m ≡ some v → suc (length (erase k m)) ≡ length m
  unfolding lookup erase
  length-erase k [] v e = cc
  length-erase k ((j, w) ∷ m) v e = ground (arith, length-erase k m v)

  pub erase-absent : (k : Bytes) (m : Assoc V) → lookup k m ≡ none → erase k m ≡ m
  unfolding lookup erase
  erase-absent k [] e = refl
  erase-absent k ((j, w) ∷ m) e = ground (arith, erase-absent k m)

  -- What holds of every value that a key gives holds of all entries.
  pub All-from_lookup {κ} :
      (P : Bytes × V → Type κ) (m : Assoc V)
      → HasUniqueKeys m
      → ((k : Bytes) (v : V) → lookup k m ≡ some v → P (k, v))
      → All P m
  unfolding lookup
  All-from_lookup P [] u f = tt
  All-from_lookup P ((j, v) ∷ m) u f = (
    f j v (rw (bytes_eq_refl j)),
    All-from_lookup P m u.1 (λ k w there. f k w (elim (Bool-cases (bytes_eq j k)) [
      | inl same ↦
          absurd (none-some w (sym u.0 ∙ ap (λ t. lookup t m) (bytes_eq-eq j k same) ∙ there))
      | inr other ↦ rw other there
    ])),
  )
    where
      none-some : (w : V) → none ≡ some w → ⊥
      none-some w e = cc
