-- ===== src/Model/Display.antt =====
-- Advisory names of people and groups (internal/model/display.go).
use walite.Base.{
  ℕ, zero, suc, ◌+◌, ◌==◌, Bool, true, false, ◌&&◌, ◌||◌, not, [], ◌∷◌, ◌++◌, Bytes, bytes_eq, ltb,
  leb, ok, ◌>>=◌, ◌>>◌, reject_if, length, take, drop, if◌then◌else◌,
}
use walite.Model.Error.{Validated, invalid_value, new_validation_error}
use walite.Model.Utf8.{decode_rune, between}
use walite.Model.Normalize.{normalize_bounded_utf8}
use walite.Model.Identifier.{ChatId, new_chat_id, is_empty}
use walite.Model.Media.{blank_controls}
use walite.Model.Chat.{Chat, max_chat_display_name_bytes}

abbrev pub display_metadata_capacity : ℕ
display_metadata_capacity = 128

-- `DisplayQuality`, a `uint8`.
abbrev pub display_opaque : ℕ
display_opaque = 0

abbrev pub display_group : ℕ
display_group = 5

pub record DisplayMetadata : Type 0 where
  pub id : ChatId
  pub name : Bytes
  pub quality : ℕ
  pub group : Bool

abbrev pub no_display : DisplayMetadata
no_display = record { id = record { value = [] }; name = []; quality = 0; group = false }

-- `unicode.IsSpace`
unfoldable pub is_space : ℕ → Bool
is_space r =
    between 0x09 0x0D r
    || (r == 0x20
        || (r == 0x85
            || (r == 0xA0
                || (r == 0x1680
                    || (between 0x2000 0x200A r
                        || (r == 0x2028
                            || (r == 0x2029 || (r == 0x202F || (r == 0x205F || r == 0x3000)))))))))

-- Whether only blanks follow.
unfoldable pub all_space : ℕ → Bytes → Bool
all_space fuel [] = true
all_space zero (b ∷ s) = false
all_space (suc fuel) (b ∷ s) =
    let rest = all_space fuel (drop (decode_rune (b ∷ s)).1 (b ∷ s)) in
    is_space (decode_rune (b ∷ s)).0 && rest

unfoldable pub trim_left : ℕ → Bytes → Bytes
trim_left fuel [] = []
trim_left zero (b ∷ s) = b ∷ s
trim_left (suc fuel) (b ∷ s) =
    let rest = trim_left fuel (drop (decode_rune (b ∷ s)).1 (b ∷ s)) in
    if is_space (decode_rune (b ∷ s)).0 then rest else b ∷ s

unfoldable pub trim_right : ℕ → Bytes → Bytes
trim_right fuel [] = []
trim_right zero (b ∷ s) = b ∷ s
trim_right (suc fuel) (b ∷ s) =
    let size = (decode_rune (b ∷ s)).1 in
    let rest = take size (b ∷ s) ++ trim_right fuel (drop size (b ∷ s)) in
    if all_space (length (b ∷ s)) (b ∷ s) then [] else rest

-- `strings.TrimSpace` on valid UTF-8. A rune takes a byte at least, so the length is enough fuel.
unfoldable pub trim_space : Bytes → Bytes
trim_space s = trim_right (length s) (trim_left (length s) s)

unfoldable pub display_text : Bytes → Bytes
display_text name =
    let text = (normalize_bounded_utf8 name max_chat_display_name_bytes).0 in
    trim_space (blank_controls (length text) text)

unfoldable pub new_display_metadata : Bytes → Bytes → ℕ → Bool → Validated DisplayMetadata
new_display_metadata id name quality group = do
  owned ← new_chat_id id
  reject_if (ltb display_group quality) (new_validation_error invalid_value "display_quality" 0)
  let text = display_text name
  ok (record {
    id = owned;
    name = text;
    quality = if is_empty text then display_opaque else quality;
    group = group;
  })

-- `DisplayMetadata.ByteSize`
abbrev pub display_byte_size : DisplayMetadata → ℕ
display_byte_size d = length d.id.value + length d.name

-- `Merge`
unfoldable pub merge_display : DisplayMetadata → DisplayMetadata → DisplayMetadata
merge_display d next =
    if is_empty d.id.value
    then next
    else if not (bytes_eq d.id.value next.id.value)
    then d
    else if not (is_empty next.name) && leb d.quality next.quality
    then record d { group = d.group || next.group; name = next.name; quality = next.quality }
    else record d { group = d.group || next.group }

unfoldable pub with_display_metadata : Chat → DisplayMetadata → Chat
with_display_metadata c d =
    if not (bytes_eq c.id.value d.id.value)
    then c
    else if not (is_empty d.name)
    then record c {
      is_group = c.is_group || d.group;
      display_name = d.name;
      name_truncated = false;
      placeholder = false;
    }
    else record c { is_group = c.is_group || d.group }
