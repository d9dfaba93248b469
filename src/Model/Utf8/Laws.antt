-- ===== src/Model/Utf8/Laws.antt =====
-- Decoding looks at no byte behind the rune, so valid strings are closed under concatenation.
use Prim.Native.Nat.{max}
use walite.Base.{
  ℕ, zero, suc, ◌+◌, ◌≤◌, ◌<◌, true, false, [], ◌∷◌, ◌++◌, Bytes, ◌≡◌, refl, length, take, drop,
  arith, ◌∙◌, ap, sym, append_assoc, Bool-cases, inl, inr, take-append-drop, length-append,
  if◌then◌else◌,
}
use walite.Model.Utf8.{
  decode_rune, decode_width, decode_two, decode_three, decode_four, width, is_broken, valid_from,
  valid_string,
}

-- What a rune of `suc w` bytes tells of the bytes `s` behind its first one.
record Reads (w b : ℕ) (s : Bytes) : Type 0 where
  size : (decode_width (suc w) b s).1 ≡ suc w
  within : w ≤ length s
  alone : (t : Bytes) → decode_width (suc w) b (take w s ++ t) ≡ decode_width (suc w) b s

two-Reads : (b : ℕ) (s : Bytes) → is_broken (decode_width 2 b s) ≡ false → Reads 1 b s
unfolding decode_width decode_two
two-Reads b [] h = cc
two-Reads b (b1 ∷ s) h = record { size = ground arith; within = omega arith; alone = λ t. refl }

three-Reads : (b : ℕ) (s : Bytes) → is_broken (decode_width 3 b s) ≡ false → Reads 2 b s
unfolding decode_width decode_three
three-Reads b [] h = cc
three-Reads b (b1 ∷ []) h = cc
three-Reads b (b1 ∷ b2 ∷ s) h = record {
  size = ground arith;
  within = omega arith;
  alone = λ t. refl;
}

four-Reads : (b : ℕ) (s : Bytes) → is_broken (decode_width 4 b s) ≡ false → Reads 3 b s
unfolding decode_width decode_four
four-Reads b [] h = cc
four-Reads b (b1 ∷ []) h = cc
four-Reads b (b1 ∷ b2 ∷ []) h = cc
four-Reads b (b1 ∷ b2 ∷ b3 ∷ s) h = record {
  size = ground arith;
  within = omega arith;
  alone = λ t. refl;
}

width-le : (b : ℕ) → width b ≤ 4
unfolding width
width-le b = ground arith

width-Reads :
    (n b : ℕ) (s : Bytes)
    → width b ≡ n
    → is_broken (decode_width n b s) ≡ false
    → (w : ℕ) × (n ≡ suc w) × Reads w b s
unfolding decode_width
width-Reads zero b s e h = cc
width-Reads (suc zero) b s e h =
    (0, refl, record { size = refl; within = omega arith; alone = λ t. refl })
width-Reads (suc (suc zero)) b s e h = (1, refl, two-Reads b s h)
width-Reads (suc (suc (suc zero))) b s e h = (2, refl, three-Reads b s h)
width-Reads (suc (suc (suc (suc zero)))) b s e h = (3, refl, four-Reads b s h)
width-Reads (suc (suc (suc (suc (suc n))))) b s e h = absurd (omega (arith, width-le b))

-- The bytes that decoding reads, as a chunk of their own.
pub record IsRune (s : Bytes) : Type 0 where
  pub positive : 0 < (decode_rune s).1
  pub within : (decode_rune s).1 ≤ length s
  pub alone : (t : Bytes) → decode_rune (take (decode_rune s).1 s ++ t) ≡ decode_rune s

pub decode_rune-IsRune :
    (b : ℕ) (s : Bytes) → is_broken (decode_rune (b ∷ s)) ≡ false → IsRune (b ∷ s)
unfolding decode_rune
decode_rune-IsRune b s h =
    let (w, e, r) = width-Reads (width b) b s refl h in
    let n : (decode_rune (b ∷ s)).1 ≡ suc w = ap (λ k. (decode_width k b s).1) e ∙ r.size in
    record {
      positive = rw n (omega arith);
      within = rw n (omega (arith, r.within));
      alone = λ t. rw n (
          ap (λ k. decode_width k b (take w s ++ t)) e
          ∙ r.alone t
          ∙ ap (λ k. decode_width k b s) (sym e));
    }

-- Decoding takes at least one byte, and no more than there are.
pub decode_rune_pos : (b : ℕ) (s : Bytes) → 0 < (decode_rune (b ∷ s)).1
decode_rune_pos b s = elim (Bool-cases (is_broken (decode_rune (b ∷ s)))) [
  | inl bad ↦ ground arith
  | inr good ↦ (decode_rune-IsRune b s good).positive
]

pub length-drop : (n : ℕ) (s : Bytes) → length (drop n s) + n ≡ max n (length s)
length-drop zero s = omega arith
length-drop (suc n) [] = omega arith
length-drop (suc n) (b ∷ s) = omega (arith, length-drop n s)

drop-append : (n : ℕ) (s t : Bytes) → n ≤ length s → drop n (s ++ t) ≡ drop n s ++ t
drop-append zero s t h = refl
drop-append (suc n) [] t h = absurd (omega arith)
drop-append (suc n) (b ∷ s) t h = drop-append n s t (omega arith)

-- What follows a whole rune does not change how it is read.
pub decode_rune-append :
    (b : ℕ) (s t : Bytes)
    → is_broken (decode_rune (b ∷ s)) ≡ false
    → (decode_rune ((b ∷ s) ++ t) ≡ decode_rune (b ∷ s))
      × (drop (decode_rune (b ∷ s)).1 ((b ∷ s) ++ t) ≡ drop (decode_rune (b ∷ s)).1 (b ∷ s) ++ t)
decode_rune-append b s t good =
    let r = decode_rune-IsRune b s good in
    let n : ℕ = (decode_rune (b ∷ s)).1 in
    let split : take n (b ∷ s) ++ (drop n (b ∷ s) ++ t) ≡ (b ∷ s) ++ t =
      sym (append_assoc (take n (b ∷ s)) (drop n (b ∷ s)) t)
      ∙ ap (λ u. u ++ t) (take-append-drop n (b ∷ s)) in
    (ap decode_rune (sym split) ∙ r.alone (drop n (b ∷ s) ++ t), drop-append n (b ∷ s) t r.within)

pub valid_from-fuel :
    (f g : ℕ) (s : Bytes) → length s ≤ f → length s ≤ g → valid_from f s ≡ valid_from g s
unfolding valid_from
valid_from-fuel zero zero [] hf hg = refl
valid_from-fuel zero (suc g) [] hf hg = refl
valid_from-fuel (suc f) zero [] hf hg = refl
valid_from-fuel (suc f) (suc g) [] hf hg = refl
valid_from-fuel zero g (b ∷ s) hf hg = absurd (omega arith)
valid_from-fuel (suc f) zero (b ∷ s) hf hg = absurd (omega arith)
valid_from-fuel (suc f) (suc g) (b ∷ s) hf hg =
    let n : ℕ = (decode_rune (b ∷ s)).1 in
    let shorter = length-drop n (b ∷ s) in
    let p = decode_rune_pos b s in
    ap (λ rest. if is_broken (decode_rune (b ∷ s)) then false else rest)
      (valid_from-fuel f g (drop n (b ∷ s)) (omega arith) (omega arith))

valid_from-append :
    (f g : ℕ) (s t : Bytes)
    → length s ≤ f
    → length (s ++ t) ≤ g
    → valid_from f s ≡ true
    → valid_string t ≡ true
    → valid_from g (s ++ t) ≡ true
unfolding valid_from valid_string
valid_from-append zero g [] t hf hg vs vt = valid_from-fuel g (length t) t hg (omega arith) ∙ vt
valid_from-append (suc f) g [] t hf hg vs vt = valid_from-fuel g (length t) t hg (omega arith) ∙ vt
valid_from-append zero g (b ∷ s) t hf hg vs vt = cc
valid_from-append (suc f) zero (b ∷ s) t hf hg vs vt = absurd (omega arith)
valid_from-append (suc f) (suc g) (b ∷ s) t hf hg vs vt =
    elim (Bool-cases (is_broken (decode_rune (b ∷ s)))) [
      | inl bad ↦ ground arith
      | inr good ↦
          let n : ℕ = (decode_rune (b ∷ s)).1 in
          let (same, dropped) = decode_rune-append b s t good in
          let shorter = length-drop n (b ∷ s) in
          let p = decode_rune_pos b s in
          let total = length-append (drop n (b ∷ s)) t in
          let total' = length-append (b ∷ s) t in
          rw (same, good, dropped)
            (valid_from-append f g (drop n (b ∷ s)) t (omega arith) (omega arith) (ground arith) vt)
    ]

pub valid_string-append :
    (s t : Bytes) → valid_string s ≡ true → valid_string t ≡ true → valid_string (s ++ t) ≡ true
unfolding valid_string
valid_string-append s t vs vt =
    valid_from-append (length s) (length (s ++ t)) s t (omega arith) (omega arith) vs vt

valid_from-behind :
    (f g : ℕ) (s t : Bytes)
    → length s ≤ f
    → length (s ++ t) ≤ g
    → valid_from f s ≡ true
    → valid_from g (s ++ t) ≡ true
    → valid_string t ≡ true
unfolding valid_from valid_string
valid_from-behind zero g [] t hf hg vs vt = valid_from-fuel (length t) g t (omega arith) hg ∙ vt
valid_from-behind (suc f) g [] t hf hg vs vt = valid_from-fuel (length t) g t (omega arith) hg ∙ vt
valid_from-behind zero g (b ∷ s) t hf hg vs vt = cc
valid_from-behind (suc f) zero (b ∷ s) t hf hg vs vt = absurd (omega arith)
valid_from-behind (suc f) (suc g) (b ∷ s) t hf hg vs vt =
    elim (Bool-cases (is_broken (decode_rune (b ∷ s)))) [
      | inl bad ↦ absurd (ground arith)
      | inr good ↦
          let n : ℕ = (decode_rune (b ∷ s)).1 in
          let (same, dropped) = decode_rune-append b s t good in
          let shorter = length-drop n (b ∷ s) in
          let p = decode_rune_pos b s in
          let total = length-append (drop n (b ∷ s)) t in
          let total' = length-append (b ∷ s) t in
          let read : (if is_broken (decode_rune ((b ∷ s) ++ t))
                then false
                else valid_from g (drop (decode_rune ((b ∷ s) ++ t)).1 ((b ∷ s) ++ t)))
              ≡ valid_from g (drop n (b ∷ s) ++ t) =
            rw (same, good, dropped) refl in
          valid_from-behind f g (drop n (b ∷ s)) t (omega arith) (omega arith) (ground arith)
            (sym read ∙ vt)
    ]

-- What follows a valid string in a valid one is valid.
pub valid_string-behind :
    (s t : Bytes) → valid_string s ≡ true → valid_string (s ++ t) ≡ true → valid_string t ≡ true
unfolding valid_string
valid_string-behind s t vs vt =
    valid_from-behind (length s) (length (s ++ t)) s t (omega arith) (omega arith) vs vt

valid_string-head :
    (b : ℕ) (s : Bytes) → valid_string (b ∷ s) ≡ true → is_broken (decode_rune (b ∷ s)) ≡ false
unfolding valid_string valid_from
valid_string-head b s v = elim (Bool-cases (is_broken (decode_rune (b ∷ s)))) [
  | inl bad ↦ absurd (ground arith)
  | inr good ↦ good
]

-- A part of a single rune is no valid string.
pub rune-whole :
    (b : ℕ) (u t : Bytes)
    → (decode_rune ((b ∷ u) ++ t)).1 ≡ length ((b ∷ u) ++ t)
    → 0 < length t
    → valid_string (b ∷ u) ≡ true
    → ⊥
rune-whole b u t whole more v =
    let good = valid_string-head b u v in
    let same = (decode_rune-append b u t good).0 in
    let size : (decode_rune ((b ∷ u) ++ t)).1 ≡ (decode_rune (b ∷ u)).1 = ap (λ r. r.1) same in
    omega (arith, whole, size, (decode_rune-IsRune b u good).within, length-append (b ∷ u) t)
