-- ===== src/Service/Queue/Ring.antt =====
-- The entries of a ring in order: `count` slots from `head` on, going round at the capacity.
use native.Mathlib.Nat.{mod-add-mod, mod-eq_of_lt, mod-eq-sub-mod, mod-lt, add-zero}
use native.Mathlib.Decide.{dec_lt}
use walite.Base.{
  ℕ, zero, suc, ◌+◌, ◌-◌, ◌%◌, ◌≤◌, ◌<◌, ◌≡◌, ◌≢◌, refl, ◌∙◌, sym, ap, ap₂, List, [], ◌∷◌, ◌++◌,
  length, get_or, set, get_or-set_self, get_or-set_ne, arith,
}

-- Two places of the ring are different indices.
pub places_differ : (cap h k m : ℕ) → k < m → m < cap → (h + k) % cap ≢ (h + m) % cap
places_differ cap h k m hk hm = λ e. apart (e ∙ later)
  where
    later : (h + m) % cap ≡ ((h + k) % cap + (m - k)) % cap
    later = rw mod-add-mod (ap (λ t. t % cap) (omega arith))

    apart : (h + k) % cap ≢ ((h + k) % cap + (m - k)) % cap
    apart = elim (dec_lt ((h + k) % cap + (m - k)) cap) [
      | yes below ↦ λ e. omega (arith, mod-eq_of_lt below)
      | no above ↦ λ e.
          let small : (h + k) % cap < cap = mod-lt (h + k) (omega arith) in
          omega (
            arith,
            mod-eq-sub-mod {n = (h + k) % cap + (m - k)} {m = cap} (omega arith),
            mod-eq_of_lt {n = (h + k) % cap + (m - k) - cap} {m = cap} (omega arith),
          )
    ]

module _ {ℓ} {A : Type ℓ} (cap : ℕ) (d : A) where
  abbrev pub slots : List A → ℕ → ℕ → List A
  slots buf h zero = []
  slots buf h (suc n) = get_or buf h d ∷ slots buf ((h + 1) % cap) n

  pub length-slots : (buf : List A) (h n : ℕ) → length (slots buf h n) ≡ n
  length-slots buf h zero = refl
  length-slots buf h (suc n) = ap suc (length-slots buf ((h + 1) % cap) n)

  place_suc : (h k : ℕ) → ((h + 1) % cap + k) % cap ≡ (h + suc k) % cap
  place_suc h k = rw mod-add-mod (ap (λ t. t % cap) (omega arith))

  -- A write outside of the entries changes none of them.
  slots-outside :
      (buf : List A) (h n j : ℕ) (v : A)
      → h < cap
      → ((k : ℕ) → k < n → (h + k) % cap ≢ j)
      → slots (set buf j v) h n ≡ slots buf h n
  slots-outside buf h zero j v hh out = refl
  slots-outside buf h (suc n) j v hh out =
      ap₂ ◌∷◌ (get_or-set_ne buf v d (λ e. out 0 (omega arith) (first ∙ sym e))) (
        slots-outside buf ((h + 1) % cap) n j v (omega arith)
          (λ k hk e. out (suc k) (omega arith) (sym (place_suc h k) ∙ e)))
    where
      first : (h + 0) % cap ≡ h
      first = rw add-zero (mod-eq_of_lt hh)

  slots-snoc :
      (buf : List A) (h n : ℕ)
      → h < cap
      → slots buf h (suc n) ≡ slots buf h n ++ (get_or buf ((h + n) % cap) d ∷ [])
  slots-snoc buf h zero hh = rw (add-zero, mod-eq_of_lt hh)
  slots-snoc buf h (suc n) hh =
      ap (λ t. get_or buf h d ∷ t)
        (slots-snoc buf ((h + 1) % cap) n (omega arith)
          ∙ ap (λ i. slots buf ((h + 1) % cap) n ++ (get_or buf i d ∷ [])) (place_suc h n))

  -- A value written just behind the entries is the new last one.
  pub slots-write :
      (buf : List A) (h n : ℕ) (v : A)
      → h < cap
      → n < cap
      → cap ≤ length buf
      → slots (set buf ((h + n) % cap) v) h (suc n) ≡ slots buf h n ++ (v ∷ [])
  slots-write buf h n v hh hn hb =
      slots-snoc (set buf ((h + n) % cap) v) h n hh
      ∙ ap₂ (λ xs x. xs ++ (x ∷ []))
          (slots-outside buf h n ((h + n) % cap) v hh (λ k hk. places_differ cap h k n hk hn))
          (get_or-set_self buf ((h + n) % cap) v d
            (omega (arith, mod-lt (h + n) {m = cap} (omega arith))))

  -- The slot of the first entry may be cleared once that is taken.
  pub slots-clear :
      (buf : List A) (h n : ℕ) (v : A)
      → h < cap
      → suc n ≤ cap
      → slots (set buf h v) ((h + 1) % cap) n ≡ slots buf ((h + 1) % cap) n
  slots-clear buf h n v hh hn =
      slots-outside buf ((h + 1) % cap) n h v (mod-lt (h + 1) (omega arith)) (λ k hk e.
        places_differ cap h 0 (suc k) (omega arith) (omega arith) (first ∙ sym e ∙ place_suc h k))
    where
      first : (h + 0) % cap ≡ h
      first = rw add-zero (mod-eq_of_lt hh)
