-- ===== src/Model/Identifier.antt =====
-- Chat, contact and message identifiers (internal/model/model.go and normalize.go).
pub mod Laws
use walite.Base.{
  ℕ, ◌==◌, Bool, true, false, ◌||◌, List, [], ◌∷◌, Bytes, String, ltb, not, Result, ok, err, ◌>>=◌,
  ◌>>◌, reject_if, length,
}
use walite.Model.Error.{
  Validated, required, too_long, invalid_utf8, control_character, new_validation_error,
}
use walite.Model.Utf8.{valid_string, runes, is_control}

abbrev pub max_identifier_bytes : ℕ
max_identifier_bytes = 512

pub record ChatId : Type 0 where
  pub value : Bytes

pub record ContactId : Type 0 where
  pub value : Bytes

pub record MessageId : Type 0 where
  pub value : Bytes

abbrev pub is_empty : Bytes → Bool
is_empty [] = true
is_empty (b ∷ s) = false

-- The loop `for _, r := range value`.
unfoldable pub has_control : List ℕ → Bool
has_control [] = false
has_control (r ∷ rs) = (r == 0 || is_control r) || has_control rs

unfoldable pub validate_identifier : Bytes → String → Validated (Unit {0})
validate_identifier value field = do
  reject_if (is_empty value) (new_validation_error required field 0)
  reject_if (ltb max_identifier_bytes (length value))
      (new_validation_error too_long field max_identifier_bytes)
  reject_if (not (valid_string value))
      (new_validation_error invalid_utf8 field max_identifier_bytes)
  reject_if (has_control (runes value))
      (new_validation_error control_character field max_identifier_bytes)

unfoldable pub new_chat_id : Bytes → Validated ChatId
new_chat_id value = do validate_identifier value "chat_id"; ok (record { value = value })

unfoldable pub new_contact_id : Bytes → Validated ContactId
new_contact_id value = do validate_identifier value "contact_id"; ok (record { value = value })

unfoldable pub new_message_id : Bytes → Validated MessageId
new_message_id value = do validate_identifier value "message_id"; ok (record { value = value })
