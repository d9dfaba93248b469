-- ===== src/Model/Utf8.antt =====
-- What the code uses of Go's unicode/utf8 and unicode: decoding one rune, `ValidString`, the runes of
-- a `range` over a string, and `IsControl`.
pub mod Laws
use walite.Base.{
  ℕ, zero, suc, ◌+◌, ◌-◌, ◌*◌, Bool, true, false, ◌&&◌, ◌||◌, List, [], ◌∷◌, Bytes, ltb, leb, ◌==◌,
  if◌then◌else◌, length, drop,
}

abbrev pub rune_error : ℕ
rune_error = 0xFFFD

abbrev pub between : ℕ → ℕ → ℕ → Bool
between lo hi b = leb lo b && leb b hi

-- The bytes of the rune that the first byte begins, 0 where it begins none.
unfoldable pub width : ℕ → ℕ
width b =
    if ltb b 0x80
    then 1
    else if ltb b 0xC2
    then 0
    else if ltb b 0xE0
    then 2
    else if ltb b 0xF0
    then 3
    else if ltb b 0xF5
    then 4
    else 0

-- The second byte's range rules out overlong forms, surrogates and values above 0x10FFFF.
unfoldable pub second : ℕ → ℕ → Bool
second b0 b =
    between (if b0 == 0xE0 then 0xA0 else if b0 == 0xF0 then 0x90 else 0x80)
      (if b0 == 0xED then 0x9F else if b0 == 0xF4 then 0x8F else 0xBF) b

unfoldable pub later : ℕ → Bool
later b = between 0x80 0xBF b

-- `DecodeRuneInString`: the rune and its size in bytes; `(RuneError, 1)` where the bytes encode none.
abbrev pub broken : ℕ × ℕ
broken = (rune_error, 1)

unfoldable pub decode_two : ℕ → Bytes → ℕ × ℕ
decode_two b0 (b1 ∷ s) = if second b0 b1 then ((b0 - 0xC0) * 64 + (b1 - 0x80), 2) else broken
decode_two b0 [] = broken

unfoldable pub decode_three : ℕ → Bytes → ℕ × ℕ
decode_three b0 (b1 ∷ b2 ∷ s) =
    if second b0 b1 && later b2
    then ((b0 - 0xE0) * 4096 + (b1 - 0x80) * 64 + (b2 - 0x80), 3)
    else broken
decode_three b0 _ = broken

unfoldable pub decode_four : ℕ → Bytes → ℕ × ℕ
decode_four b0 (b1 ∷ b2 ∷ b3 ∷ s) =
    if second b0 b1 && (later b2 && later b3)
    then ((b0 - 0xF0) * 262144 + (b1 - 0x80) * 4096 + (b2 - 0x80) * 64 + (b3 - 0x80), 4)
    else broken
decode_four b0 _ = broken

unfoldable pub decode_width : ℕ → ℕ → Bytes → ℕ × ℕ
unfolding decode_two decode_three decode_four
decode_width zero b0 s = broken
decode_width (suc zero) b0 s = (b0, 1)
decode_width (suc (suc zero)) b0 s = decode_two b0 s
decode_width (suc (suc (suc zero))) b0 s = decode_three b0 s
decode_width _ b0 s = decode_four b0 s

unfoldable pub decode_rune : Bytes → ℕ × ℕ
unfolding decode_width width second later
decode_rune [] = (rune_error, 0)
decode_rune (b ∷ s) = decode_width (width b) b s

-- `r == utf8.RuneError && size == 1`
abbrev pub is_broken : ℕ × ℕ → Bool
is_broken (r, size) = (r == rune_error) && (size == 1)

-- `ValidString`; the fuel is the number of bytes, of which each round takes at least one.
unfoldable pub valid_from : ℕ → Bytes → Bool
valid_from fuel [] = true
valid_from zero (b ∷ s) = false
valid_from (suc fuel) (b ∷ s) =
    let rest = valid_from fuel (drop (decode_rune (b ∷ s)).1 (b ∷ s)) in
    if is_broken (decode_rune (b ∷ s)) then false else rest

unfoldable pub valid_string : Bytes → Bool
unfolding valid_from
valid_string s = valid_from (length s) s

-- The runes of `for _, r := range s`.
unfoldable pub runes_from : ℕ → Bytes → List ℕ
runes_from fuel [] = []
runes_from zero (b ∷ s) = []
runes_from (suc fuel) (b ∷ s) =
    (decode_rune (b ∷ s)).0 ∷ runes_from fuel (drop (decode_rune (b ∷ s)).1 (b ∷ s))

unfoldable pub runes : Bytes → List ℕ
unfolding runes_from
runes s = runes_from (length s) s

-- `unicode.IsControl`
unfoldable pub is_control : ℕ → Bool
is_control r = ltb r 0x20 || between 0x7F 0x9F r

-- The three bytes of `RuneError`, which `WriteRune` writes.
abbrev pub replacement : Bytes
replacement = 0xEF ∷ 0xBF ∷ 0xBD ∷ []
