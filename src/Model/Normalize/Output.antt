-- ===== src/Model/Normalize/Output.antt =====
-- One chunk of the output of the normalization: its length, and that it is one rune.
use native.Mathlib.Decide.{dec_lt}
use walite.Base.{
  ◌-◌, ℕ, zero, suc, ◌+◌, ◌≤◌, ◌<◌, true, false, [], ◌∷◌, ◌++◌, Bytes, ◌≡◌, refl, length, take,
  drop, arith, ◌∙◌, ap, sym, append-nil, Bool-cases, inl, inr, take-append-drop, length-take,
}
use walite.Model.Utf8.{decode_rune, is_broken, replacement, valid_string}
use walite.Model.Utf8.Laws.{
  rune-whole, valid_string-behind, decode_rune-IsRune, decode_rune_pos, length-drop,
}
use walite.Model.Normalize.{output, output_bytes}

-- One chunk of the output is as long as the loop counts it, is not empty, and is valid.
pub output-length :
    (b : ℕ) (s : Bytes) → length (output (b ∷ s)) ≡ output_bytes (decode_rune (b ∷ s))
unfolding output output_bytes
output-length b s = elim (Bool-cases (is_broken (decode_rune (b ∷ s)))) [
  | inl bad ↦ rw bad
  | inr good ↦
      let r = decode_rune-IsRune b s good in
      rw good (omega (arith, length-take (decode_rune (b ∷ s)).1 (b ∷ s), r.within))
]

pub output-pos : (b : ℕ) (s : Bytes) → 0 < length (output (b ∷ s))
unfolding output_bytes
output-pos b s = rw (output-length b s) (ground (arith, decode_rune_pos b s))

pub take-append : (n : ℕ) (s t : Bytes) → n ≤ length s → take n (s ++ t) ≡ take n s
take-append zero s t h = refl
take-append (suc n) [] t h = absurd (omega arith)
take-append (suc n) (b ∷ s) t h = ap (λ u. b ∷ u) (take-append n s t (omega arith))

drop-take : (n : ℕ) (s : Bytes) → drop n (take n s) ≡ []
drop-take zero s = refl
drop-take (suc n) [] = refl
drop-take (suc n) (b ∷ s) = drop-take n s

pub output-valid : (b : ℕ) (s : Bytes) → valid_string (output (b ∷ s)) ≡ true
unfolding output valid_string
output-valid b s = elim (Bool-cases (is_broken (decode_rune (b ∷ s)))) [
  | inl bad ↦ rw bad replacement-valid
  | inr good ↦ rw good (whole (decode_rune (b ∷ s)).1 refl good)
]
  where
    replacement-valid : valid_string replacement ≡ true
    replacement-valid = unfold decode_rune in refl

    whole :
        (n : ℕ)
        → (decode_rune (b ∷ s)).1 ≡ n
        → is_broken (decode_rune (b ∷ s)) ≡ false
        → valid_string (take n (b ∷ s)) ≡ true
    whole zero e good = absurd (omega (arith, decode_rune_pos b s))
    whole (suc n) e good =
        let r = decode_rune-IsRune b s good in
        let alone : decode_rune (b ∷ take n s) ≡ decode_rune (b ∷ s) =
          ap decode_rune
            (sym (append-nil (take (suc n) (b ∷ s))) ∙ ap (λ k. take k (b ∷ s) ++ []) (sym e))
          ∙ r.alone [] in
        rw (alone, good, e, drop-take n s)

decode_rune-output :
    (b : ℕ) (s : Bytes) → (decode_rune (output (b ∷ s))).1 ≡ length (output (b ∷ s))
unfolding output
decode_rune-output b s = elim (Bool-cases (is_broken (decode_rune (b ∷ s)))) [
  | inl bad ↦ rw bad replacement-size
  | inr good ↦
      let n : ℕ = (decode_rune (b ∷ s)).1 in
      let r = decode_rune-IsRune b s good in
      let alone : decode_rune (take n (b ∷ s)) ≡ decode_rune (b ∷ s) =
        ap decode_rune (sym (append-nil (take n (b ∷ s)))) ∙ r.alone [] in
      let size : length (take n (b ∷ s)) ≡ n = omega (arith, length-take n (b ∷ s), r.within) in
      rw good (ap (λ d. d.1) alone ∙ sym size)
]
  where
    replacement-size : (decode_rune replacement).1 ≡ 3
    replacement-size = unfold decode_rune in refl

rune-part :
    (o : Bytes) (k : ℕ)
    → (decode_rune o).1 ≡ length o
    → 0 < k
    → k < length o
    → valid_string (take k o) ≡ true
    → ⊥
rune-part o zero whole h l v = absurd (omega arith)
rune-part [] (suc k) whole h l v = absurd (omega arith)
rune-part (b ∷ s) (suc k) whole h l v =
    let split : (b ∷ take k s) ++ drop k s ≡ b ∷ s = ap (λ u. b ∷ u) (take-append-drop k s) in
    rune-whole b (take k s) (drop k s)
      (ap (λ u. (decode_rune u).1) split ∙ whole ∙ ap length (sym split))
      (omega (arith, length-drop k s)) v

take-append-behind : (out t : Bytes) (k : ℕ) → take (length out + k) (out ++ t) ≡ out ++ take k t
take-append-behind [] t k = ap (λ n. take n t) (omega arith)
take-append-behind (b ∷ out) t k =
    let n : length (b ∷ out) + k ≡ suc (length out + k) = omega arith in
    ap (λ n. take n ((b ∷ out) ++ t)) n ∙ ap (λ u. b ∷ u) (take-append-behind out t k)

-- Behind `out`, no valid prefix ends within the next chunk.
pub output-longest :
    (out more : Bytes) (b : ℕ) (s : Bytes) (limit n : ℕ)
    → valid_string out ≡ true
    → limit < length out + length (output (b ∷ s))
    → n ≤ limit
    → valid_string (take n (out ++ (output (b ∷ s) ++ more))) ≡ true
    → n ≤ length out
output-longest out more b s limit n v over h good = elim (dec_lt (length out) n) [
  | no short ↦ omega arith
  | yes long ↦
      let o = output (b ∷ s) in
      let k = n - length out in
      let place : n ≡ length out + k = omega arith in
      let cut : take n (out ++ (o ++ more)) ≡ out ++ take k o =
        ap (λ m. take m (out ++ (o ++ more))) place
        ∙ take-append-behind out (o ++ more) k
        ∙ ap (λ u. out ++ u) (take-append k o more (omega arith)) in
      absurd (
        rune-part o k (decode_rune-output b s) (omega arith) (omega arith)
          (valid_string-behind out (take k o) v (ap valid_string (sym cut) ∙ good)))
]
