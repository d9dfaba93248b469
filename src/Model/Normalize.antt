-- ===== src/Model/Normalize.antt =====
-- The text normalization of internal/model: `NormalizeText` (normalize.go) and
-- `normalizeBoundedUTF8` (store.go), which share their loop.
pub mod Output
pub mod Spec
pub mod Results
use walite.Base.{
  ℕ, zero, suc, ◌+◌, Bool, true, false, [], ◌∷◌, ◌++◌, Bytes, ltb, ◌==◌, if◌then◌else◌, length,
  take, drop,
}
use walite.Model.Utf8.{decode_rune, is_broken, replacement, valid_string}

abbrev pub max_retained_text_bytes : ℕ
max_retained_text_bytes = 16384

-- `outputBytes`
unfoldable pub output_bytes : ℕ × ℕ → ℕ
output_bytes d = if is_broken d then 3 else d.1

-- What the loop writes for the rune at the head of `s`.
unfoldable pub output : Bytes → Bytes
output s = if is_broken (decode_rune s) then replacement else take (decode_rune s).1 s

-- The loop from `offset`, with `value[offset:]` and what the builder holds. A round consumes at least
-- one byte, so the number of bytes is enough fuel.
unfoldable pub normalize_loop : ℕ → ℕ → Bytes → Bytes → Bytes × Bool
normalize_loop limit fuel [] out = (out, false)
normalize_loop limit zero (b ∷ s) out = (out, false)
normalize_loop limit (suc fuel) (b ∷ s) out =
    let rest =
      normalize_loop limit fuel (drop (decode_rune (b ∷ s)).1 (b ∷ s)) (out ++ output (b ∷ s)) in
    if ltb limit (length out + output_bytes (decode_rune (b ∷ s))) then (out, true) else rest

-- Both functions behind their tests for empty arguments.
unfoldable pub normalize_prefix : ℕ → Bytes → Bytes × Bool
normalize_prefix limit value =
    let prefix_bytes = if ltb limit (length value) then limit else length value in
    let prefix = take prefix_bytes value in
    if valid_string prefix
    then (prefix, ltb prefix_bytes (length value))
    else normalize_loop limit (length value) value []

unfoldable pub normalize_text : Bytes → Bytes × Bool
normalize_text [] = ([], false)
normalize_text (b ∷ s) = normalize_prefix max_retained_text_bytes (b ∷ s)

unfoldable pub normalize_bounded_utf8 : Bytes → ℕ → Bytes × Bool
normalize_bounded_utf8 [] max_bytes = ([], false)
normalize_bounded_utf8 (b ∷ s) max_bytes =
    if max_bytes == 0 then ([], true) else normalize_prefix max_bytes (b ∷ s)
