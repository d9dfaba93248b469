-- ===== src/Model/Normalize/Results.antt =====
-- What `NormalizeText` and `normalizeBoundedUTF8` return, on every input.
use walite.Base.{
  append-nil, ℕ, ◌≤◌, ◌<◌, true, false, [], ◌∷◌, ◌++◌, Bytes, ◌≡◌, refl, length, take, drop, arith,
  ◌∙◌, ap, sym, Bool-cases, inl, inr, take-append-drop, length-append, length-take, take-all,
  if◌then◌else◌, ltb, ◌==◌, ◌⊎◌,
}
use walite.Model.Utf8.{valid_string, valid_from}
use walite.Model.Utf8.Laws.{length-drop}
use walite.Model.Normalize.{
  output, normalize_prefix, normalize_text, normalize_bounded_utf8, max_retained_text_bytes,
}
use walite.Model.Normalize.Output.{output-pos}
use walite.Model.Normalize.Spec.{
  sanitize, sanitize_from, sanitize-valid, normalize_loop-out, IsBoundedPrefix,
}

sanitize-nil : sanitize [] ≡ []
unfolding sanitize sanitize_from
sanitize-nil = refl

sanitize-pos : (s : Bytes) → 0 < length s → 0 < length (sanitize s)
unfolding sanitize sanitize_from
sanitize-pos [] h = h
sanitize-pos (b ∷ s) h = rw (length-append (output (b ∷ s))) (omega (arith, output-pos b s))

-- `drop n s` sanitizes to nothing exactly where nothing is dropped.
sanitize-drop :
    (n : ℕ) (s : Bytes)
    → n ≤ length s
    → (n ≡ length s) × (length (sanitize (drop n s)) ≡ 0)
      ⊎ (n < length s) × (0 < length (sanitize (drop n s)))
sanitize-drop n s h = go (drop n s) refl
  where
    go :
        (t : Bytes)
        → drop n s ≡ t
        → (n ≡ length s) × (length (sanitize (drop n s)) ≡ 0)
          ⊎ (n < length s) × (0 < length (sanitize (drop n s)))
    go [] e = inl (
      omega (arith, length-drop n s, ap length e),
      ap (λ t. length (sanitize t)) e ∙ ap length sanitize-nil,
    )
    go (b ∷ t) e =
        inr (omega (arith, length-drop n s, ap length e), rw e (sanitize-pos (b ∷ t) (omega arith)))

length-nil : (s : Bytes) → length s ≡ 0 → s ≡ []
length-nil [] h = refl
length-nil (b ∷ s) h = absurd (omega arith)

-- The fast path: a prefix that is already valid is returned as it is.
prefix-IsBoundedPrefix :
    (limit n : ℕ) (s : Bytes)
    → n ≤ limit
    → n ≤ length s
    → (n < length s → n ≡ limit)
    → valid_string (take n s) ≡ true
    → IsBoundedPrefix limit (sanitize s) (take n s, ltb n (length s))
prefix-IsBoundedPrefix limit n s hl hs cut v =
    let whole : sanitize s ≡ take n s ++ sanitize (drop n s) =
      ap sanitize (sym (take-append-drop n s)) ∙ sanitize-valid (take n s) (drop n s) v in
    record {
      rest = sanitize (drop n s);
      split = sym whole;
      within = omega (arith, length-take n s);
      flag =
          rw (whole, length-append (take n s) (sanitize (drop n s)), length-take n s)
            (ground (arith, sanitize-drop n s hs));
      is_valid = v;
      complete = λ h. elim (sanitize-drop n s hs) [
        | inl (all, nothing) ↦ sym (
            whole
            ∙ ap (λ u. take n s ++ u) (length-nil (sanitize (drop n s)) nothing)
            ∙ append-nil (take n s))
        | inr (some_left, more) ↦ absurd (ground arith)
      ];
      longest = λ m k l good. elim (sanitize-drop n s hs) [
        | inl (all, nothing) ↦
            omega (arith, ap length whole, length-append (take n s) (sanitize (drop n s)), nothing)
        | inr (some_left, more) ↦ omega (arith, length-take n s, cut some_left)
      ];
    }

valid_string-nil : valid_string [] ≡ true
unfolding valid_string valid_from
valid_string-nil = refl

pub normalize_prefix-IsBoundedPrefix :
    (limit : ℕ) (s : Bytes) → IsBoundedPrefix limit (sanitize s) (normalize_prefix limit s)
unfolding normalize_prefix sanitize
normalize_prefix-IsBoundedPrefix limit s =
    let n : ℕ = if ltb limit (length s) then limit else length s in
    elim (Bool-cases (valid_string (take n s))) [
      | inl good ↦
          rw good
            (prefix-IsBoundedPrefix limit n s (ground arith) (ground arith) (ground arith) good)
      | inr bad ↦
          rw bad
            (normalize_loop-out limit (length s) s [] (omega arith) (omega arith) valid_string-nil)
    ]

nil-IsBoundedPrefix : (limit : ℕ) → IsBoundedPrefix limit (sanitize []) ([], false)
nil-IsBoundedPrefix limit = rw sanitize-nil (record {
  rest = [];
  split = refl;
  within = omega arith;
  flag = ground arith;
  is_valid = valid_string-nil;
  complete = λ h. refl;
  longest = λ n h k good. k;
})

-- The normalized text is the longest valid prefix, of at most 16,384 bytes, of the input with each
-- byte outside a rune replaced by U+FFFD; it is that whole text where it is not marked as
-- truncated, and it is marked so exactly where the whole is longer than the limit.
pub normalize_text-IsBoundedPrefix :
    (s : Bytes) → IsBoundedPrefix max_retained_text_bytes (sanitize s) (normalize_text s)
unfolding normalize_text
normalize_text-IsBoundedPrefix [] = nil-IsBoundedPrefix max_retained_text_bytes
normalize_text-IsBoundedPrefix (b ∷ s) =
    normalize_prefix-IsBoundedPrefix max_retained_text_bytes (b ∷ s)

-- The bounded text is the longest valid prefix within the limit, of the input with each byte
-- outside a rune replaced by U+FFFD; it is that whole text where it is not marked as truncated, and
-- it is marked so exactly where the whole is longer than the limit.
pub normalize_bounded_utf8-IsBoundedPrefix :
    (s : Bytes) (limit : ℕ) → IsBoundedPrefix limit (sanitize s) (normalize_bounded_utf8 s limit)
unfolding normalize_bounded_utf8
normalize_bounded_utf8-IsBoundedPrefix [] limit = nil-IsBoundedPrefix limit
normalize_bounded_utf8-IsBoundedPrefix (b ∷ s) limit = elim (Bool-cases (limit == 0)) [
  | inl none_fits ↦ rw none_fits (record {
    rest = sanitize (b ∷ s);
    split = refl;
    within = omega arith;
    flag = ground (arith, sanitize-pos (b ∷ s));
    is_valid = valid_string-nil;
    complete = λ h. cc;
    longest = λ n h k good. ground arith;
  })
  | inr some_fits ↦ rw some_fits (normalize_prefix-IsBoundedPrefix limit (b ∷ s))
]

normalize_prefix-valid :
    (limit : ℕ) (s : Bytes)
    → valid_string s ≡ true
    → length s ≤ limit
    → normalize_prefix limit s ≡ (s, false)
unfolding normalize_prefix
normalize_prefix-valid limit s v h =
    let short : ltb limit (length s) ≡ false = ground arith in
    rw (short, take-all (length s) s (omega arith), v) (ground arith)

normalize_text-valid :
    (s : Bytes)
    → valid_string s ≡ true
    → length s ≤ max_retained_text_bytes
    → normalize_text s ≡ (s, false)
unfolding normalize_text
normalize_text-valid [] v h = refl
normalize_text-valid (b ∷ s) v h = normalize_prefix-valid max_retained_text_bytes (b ∷ s) v h

-- Normalizing a normalized text changes nothing and truncates nothing.
pub normalize_text-idempotent :
    (s : Bytes) → normalize_text (normalize_text s).0 ≡ ((normalize_text s).0, false)
normalize_text-idempotent s =
    let r = normalize_text-IsBoundedPrefix s in
    normalize_text-valid (normalize_text s).0 r.is_valid r.within
