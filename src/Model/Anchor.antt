-- ===== src/Model/Anchor.antt =====
-- Paging boundaries, anchors and write origins (internal/model/store.go).
use walite.Base.{ℕ, ◌==◌, Bool, ◌&&◌, [], ◌||◌, not, ok, ◌>>=◌, ◌>>◌, reject_if}
use walite.Model.Error.{Validated, required, invalid_value, new_validation_error}
use walite.Model.Time.{Time, zero_time, is_zero}
use walite.Model.Identifier.{ChatId, MessageId, new_chat_id, new_message_id, is_empty}

-- An exclusive (sent_at, message_id) page boundary.
pub record Cursor : Type 0 where
  pub sent_at : Time
  pub message_id : MessageId

unfoldable pub new_cursor : Time → MessageId → Validated Cursor
new_cursor sent_at message_id = do
  reject_if (is_zero sent_at) (new_validation_error required "sent_at" 0)
  owned_id ← new_message_id message_id.value
  ok (record { sent_at = sent_at; message_id = owned_id })

abbrev pub no_cursor : Cursor
no_cursor = record { sent_at = zero_time; message_id = record { value = [] } }

abbrev pub is_no_cursor : Cursor → Bool
is_no_cursor c = is_zero c.sent_at && is_empty c.message_id.value

pub record MessageAnchor : Type 0 where
  pub chat_id : ChatId
  pub message_id : MessageId
  pub sent_at : Time
  pub from_me : Bool

unfoldable pub new_message_anchor : ChatId → MessageId → Time → Bool → Validated MessageAnchor
new_message_anchor chat_id message_id sent_at from_me = do
  owned_chat_id ← new_chat_id chat_id.value
  owned_message_id ← new_message_id message_id.value
  reject_if (is_zero sent_at) (new_validation_error required "sent_at" 0)
  ok (record {
    chat_id = owned_chat_id;
    message_id = owned_message_id;
    sent_at = sent_at;
    from_me = from_me;
  })

-- `WriteOrigin`, a `uint8`.
abbrev pub write_realtime : ℕ
write_realtime = 1

abbrev pub write_history : ℕ
write_history = 2

unfoldable pub validate_write_origin : ℕ → Validated (Unit {0})
validate_write_origin origin = do
  reject_if (origin == 0) (new_validation_error required "write_origin" 0)
  reject_if (not (origin == write_realtime || origin == write_history))
      (new_validation_error invalid_value "write_origin" 0)
