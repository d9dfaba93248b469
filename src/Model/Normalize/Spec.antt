-- ===== src/Model/Normalize/Spec.antt =====
-- Normalization against a specification without a limit, `sanitize`: every byte that belongs to no
-- rune becomes U+FFFD.
use walite.Base.{
  ℕ, zero, suc, ◌+◌, ◌≤◌, Bool, true, false, [], ◌∷◌, ◌++◌, Bytes, ◌≡◌, refl, length, take, drop,
  arith, ap, sym, append_assoc, append-nil, Bool-cases, inl, inr, take-append-drop, length-append,
  ltb, lt→ltb, ltb→lt,
}
use walite.Model.Utf8.{decode_rune, is_broken, valid_from, valid_string}
use walite.Model.Utf8.Laws.{
  decode_rune-IsRune, decode_rune_pos, decode_rune-append, length-drop, valid_string-append,
}
use walite.Model.Normalize.{output, output_bytes, normalize_loop}
use walite.Model.Normalize.Output.{output-length, take-append, output-valid, output-longest}

unfoldable pub sanitize_from : ℕ → Bytes → Bytes
unfolding output
sanitize_from fuel [] = []
sanitize_from zero (b ∷ s) = []
sanitize_from (suc fuel) (b ∷ s) =
    output (b ∷ s) ++ sanitize_from fuel (drop (decode_rune (b ∷ s)).1 (b ∷ s))

unfoldable pub sanitize : Bytes → Bytes
unfolding sanitize_from
sanitize s = sanitize_from (length s) s

sanitize_from-fuel :
    (f g : ℕ) (s : Bytes) → length s ≤ f → length s ≤ g → sanitize_from f s ≡ sanitize_from g s
unfolding sanitize_from
sanitize_from-fuel zero zero [] hf hg = refl
sanitize_from-fuel zero (suc g) [] hf hg = refl
sanitize_from-fuel (suc f) zero [] hf hg = refl
sanitize_from-fuel (suc f) (suc g) [] hf hg = refl
sanitize_from-fuel zero g (b ∷ s) hf hg = absurd (omega arith)
sanitize_from-fuel (suc f) zero (b ∷ s) hf hg = absurd (omega arith)
sanitize_from-fuel (suc f) (suc g) (b ∷ s) hf hg =
    let n : ℕ = (decode_rune (b ∷ s)).1 in
    let shorter = length-drop n (b ∷ s) in
    let p = decode_rune_pos b s in
    ap (λ rest. output (b ∷ s) ++ rest)
      (sanitize_from-fuel f g (drop n (b ∷ s)) (omega arith) (omega arith))

-- The result is the longest valid prefix within the limit; it is cut short exactly where the whole
-- is too long, and is the whole otherwise.
pub record IsBoundedPrefix (limit : ℕ) (whole : Bytes) (r : Bytes × Bool) : Type 0 where
  pub rest : Bytes
  pub split : r.0 ++ rest ≡ whole
  pub within : length r.0 ≤ limit
  pub flag : r.1 ≡ ltb limit (length whole)
  pub is_valid : valid_string r.0 ≡ true
  pub complete : r.1 ≡ false → r.0 ≡ whole
  pub longest :
      (n : ℕ) → n ≤ limit → n ≤ length whole → valid_string (take n whole) ≡ true → n ≤ length r.0

output-append :
    (b : ℕ) (s t : Bytes)
    → is_broken (decode_rune (b ∷ s)) ≡ false
    → output ((b ∷ s) ++ t) ≡ take (decode_rune (b ∷ s)).1 (b ∷ s)
unfolding output
output-append b s t good =
    rw ((decode_rune-append b s t good).0, good)
      (take-append _ (b ∷ s) t (decode_rune-IsRune b s good).within)

pub normalize_loop-out :
    (limit f : ℕ) (s out : Bytes)
    → length s ≤ f
    → length out ≤ limit
    → valid_string out ≡ true
    → IsBoundedPrefix limit (out ++ sanitize_from f s) (normalize_loop limit f s out)
unfolding normalize_loop sanitize_from
normalize_loop-out limit f [] out hf hl v = record {
  rest = [];
  split = refl;
  within = hl;
  flag = rw append-nil (ground arith);
  is_valid = v;
  complete = λ h. sym (append-nil out);
  longest = λ n h l good. omega (arith, ap length (append-nil out));
}
normalize_loop-out limit zero (b ∷ s) out hf hl v = absurd (omega arith)
normalize_loop-out limit (suc f) (b ∷ s) out hf hl v =
    let n : ℕ = (decode_rune (b ∷ s)).1 in
    let shorter = length-drop n (b ∷ s) in
    let p = decode_rune_pos b s in
    let l = output-length b s in
    let more : Bytes = sanitize_from f (drop n (b ∷ s)) in
    elim (Bool-cases (ltb limit (length out + output_bytes (decode_rune (b ∷ s))))) [
      | inl over ↦ rw over (record {
        rest = output (b ∷ s) ++ more;
        split = refl;
        within = hl;
        flag = sym (
            lt→ltb limit _ (
              rw (length-append out (output (b ∷ s) ++ more), length-append (output (b ∷ s)) more)
                (omega (arith, ltb→lt _ _ over))));
        is_valid = v;
        complete = λ h. cc;
        longest = λ n h k good.
            output-longest out more b s limit n v (omega (arith, ltb→lt _ _ over, l)) h good;
      })
      | inr fits ↦
          rw (fits, ← append_assoc out (output (b ∷ s)) more)
            (normalize_loop-out limit f (drop n (b ∷ s)) (out ++ output (b ∷ s)) (omega arith)
              (rw (length-append out (output (b ∷ s))) (ground arith))
              (valid_string-append out (output (b ∷ s)) v (output-valid b s)))
    ]

-- A valid prefix passes through `sanitize` unchanged.
sanitize_from-valid :
    (f g : ℕ) (s t : Bytes)
    → length s ≤ f
    → length (s ++ t) ≤ g
    → valid_from f s ≡ true
    → sanitize_from g (s ++ t) ≡ s ++ sanitize t
unfolding sanitize_from sanitize valid_from
sanitize_from-valid zero g [] t hf hg v = sanitize_from-fuel g (length t) t hg (omega arith)
sanitize_from-valid (suc f) g [] t hf hg v = sanitize_from-fuel g (length t) t hg (omega arith)
sanitize_from-valid zero g (b ∷ s) t hf hg v = cc
sanitize_from-valid (suc f) zero (b ∷ s) t hf hg v = absurd (omega arith)
sanitize_from-valid (suc f) (suc g) (b ∷ s) t hf hg v =
    elim (Bool-cases (is_broken (decode_rune (b ∷ s)))) [
      | inl bad ↦ absurd (ground arith)
      | inr good ↦
          let n : ℕ = (decode_rune (b ∷ s)).1 in
          let (same, dropped) = decode_rune-append b s t good in
          let shorter = length-drop n (b ∷ s) in
          let p = decode_rune_pos b s in
          let total = length-append (drop n (b ∷ s)) t in
          let total' = length-append (b ∷ s) t in
          let ih : sanitize_from g (drop n (b ∷ s) ++ t) ≡ drop n (b ∷ s) ++ sanitize t =
            sanitize_from-valid f g (drop n (b ∷ s)) t (omega arith) (omega arith) (ground arith) in
          rw (output-append b s t good, same, dropped, ih, ← append_assoc, take-append-drop)
    ]

pub sanitize-valid : (s t : Bytes) → valid_string s ≡ true → sanitize (s ++ t) ≡ s ++ sanitize t
unfolding sanitize valid_string
sanitize-valid s t v =
    sanitize_from-valid (length s) (length (s ++ t)) s t (omega arith) (omega arith) v
