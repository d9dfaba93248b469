-- ===== src/Model/Update.antt =====
-- Updates that the application observes (internal/model/update.go).
use walite.Base.{
  ℕ, ◌*◌, ◌==◌, pos, Bool, ◌&&◌, not, [], ◌∷◌, ltb, ok, err, ◌>>=◌, ◌>>◌, reject_if, length, none,
  some, if◌then◌else◌,
}
use walite.Model.Error.{Validated, required, invalid_value, size_exceeded, new_validation_error}
use walite.Model.Identifier.{ChatId, MessageId, new_chat_id, new_message_id, is_empty}
use walite.Model.Message.{checked_byte_sum}

abbrev pub max_normalized_update_bytes : ℕ
max_normalized_update_bytes = 32 * 1024

abbrev pub normalized_update_envelope_bytes : ℕ
normalized_update_envelope_bytes = 256

-- `UpdateKind`, a `uint8`; `UpdateReady` is 1, and the other kinds follow `UpdateLive`.
abbrev pub update_live : ℕ
update_live = 2

abbrev pub update_fatal : ℕ
update_fatal = 8

pub record UpdateInput : Type 0 where
  pub kind : ℕ
  pub chat_id : ChatId
  pub message_id : MessageId
  pub accepted : ℕ
  pub discarded : ℕ
  pub degraded : Bool

pub record Update : Type 0 where
  pub kind : ℕ
  pub chat_id : ChatId
  pub message_id : MessageId
  pub accepted : ℕ
  pub discarded : ℕ
  pub degraded : Bool
  pub byte_size : ℕ

unfoldable pub validate_update_kind : ℕ → Validated (Unit {0})
validate_update_kind kind = do
  reject_if (kind == 0) (new_validation_error required "update_kind" 0)
  reject_if (ltb update_fatal kind) (new_validation_error invalid_value "update_kind" 0)

unfoldable pub normalized_update_byte_size : ℕ → ℕ → Validated ℕ
normalized_update_byte_size chat_id_bytes message_id_bytes =
    elim (checked_byte_sum
      (pos normalized_update_envelope_bytes ∷ pos chat_id_bytes ∷ pos message_id_bytes ∷ [])) [
        | none ↦ err (new_validation_error size_exceeded "update" max_normalized_update_bytes)
        | some n ↦
            if ltb max_normalized_update_bytes n
            then err (new_validation_error size_exceeded "update" max_normalized_update_bytes)
            else ok n
      ]

unfoldable pub new_update : UpdateInput → Validated Update
new_update input = do
  validate_update_kind input.kind
  reject_if (input.kind == update_live && is_empty input.chat_id.value)
      (new_validation_error required "chat_id" 0)
  reject_if (input.kind == update_live && is_empty input.message_id.value)
      (new_validation_error required "message_id" 0)
  reject_if (not (is_empty input.message_id.value) && is_empty input.chat_id.value)
      (new_validation_error required "chat_id" 0)
  chat_id ←
      if is_empty input.chat_id.value
      then ok (record { value = [] })
      else new_chat_id input.chat_id.value
  message_id ←
      if is_empty input.message_id.value
      then ok (record { value = [] })
      else new_message_id input.message_id.value
  byte_size ← normalized_update_byte_size (length chat_id.value) (length message_id.value)
  ok (record {
    kind = input.kind;
    chat_id = chat_id;
    message_id = message_id;
    accepted = input.accepted;
    discarded = input.discarded;
    degraded = input.degraded;
    byte_size = byte_size;
  })
