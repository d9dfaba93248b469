-- ===== src/Model/Batch.antt =====
-- Bounded collections of messages: the write batch (internal/model/store.go) and the history chunk
-- and job (internal/model/history.go).
pub mod Charge
use walite.Base.{
  ℕ, ◌+◌, ◌*◌, ◌==◌, pos, Bool, true, false, ◌||◌, not, List, [], ◌∷◌, Bytes, ltb, leb, length,
  Result, ok, err, ◌>>=◌, ◌>>◌, reject_if, Option, none, some, if◌then◌else◌, String,
}
use walite.Model.Error.{
  Validated, required, too_long, invalid_utf8, control_character, invalid_value, size_exceeded,
  new_validation_error,
}
use walite.Model.Utf8.{valid_string, runes}
use walite.Model.Identifier.{is_empty, has_control, new_chat_id, new_message_id}
use walite.Model.Media.{clone_media}
use walite.Model.Quote.{clone_text_quote}
use walite.Model.Message.{Message, checked_byte_sum, validate_message}
use walite.Model.Anchor.{validate_write_origin}

abbrev pub max_write_batch_messages : ℕ
max_write_batch_messages = 50

abbrev pub write_batch_record_bytes : ℕ
write_batch_record_bytes = 32

-- 50 times the limits of a message's strings with a record each.
abbrev pub max_write_batch_bytes : ℕ
max_write_batch_bytes = 50 * (5 * 512 + 16384 + 1024 + 2 * 512 + 2 * 256 + 3072 + 64 + 2 * 64 + 32)

pub record WriteBatch : Type 0 where
  pub origin : ℕ
  pub messages : List Message
  pub byte_size : ℕ

unfoldable pub clone_normalized_message : Message → Validated (Message × ℕ)
clone_normalized_message m = do
  byte_size ← validate_message m
  chat_id ← new_chat_id m.chat_id.value
  message_id ← new_message_id m.message_id.value
  quote ← clone_text_quote m.quote
  media ← clone_media m.media
  ok (
    record m {
      chat_id = chat_id;
      message_id = message_id;
      quote = quote;
      media = media;
      byte_size = byte_size;
    },
    byte_size,
  )

-- The loop over the messages, with the charge of each.
unfoldable pub clone_messages : List Message → Validated (List Message × List ℕ)
clone_messages [] = ok ([], [])
clone_messages (m ∷ ms) = do
  owned ← clone_normalized_message m
  rest ← clone_messages ms
  ok (owned.0 ∷ rest.0, owned.1 ∷ rest.1)

-- One round of the loops of `writeBatchByteSize` and `historyChunkByteSize`.
unfoldable pub add_record : ℕ → ℕ → String → ℕ → ℕ → Validated ℕ
add_record record_bytes limit field total byte_size =
    elim (checked_byte_sum (pos total ∷ pos byte_size ∷ pos record_bytes ∷ [])) [
      | none ↦ err (new_validation_error size_exceeded field limit)
      | some next ↦
          if ltb limit next then err (new_validation_error size_exceeded field limit) else ok next
    ]

unfoldable pub write_batch_byte_size_from : ℕ → List ℕ → Validated ℕ
write_batch_byte_size_from total [] = ok total
write_batch_byte_size_from total (byte_size ∷ sizes) = do
  next ← add_record write_batch_record_bytes max_write_batch_bytes "write_batch" total byte_size
  write_batch_byte_size_from next sizes

unfoldable pub write_batch_byte_size : List ℕ → Validated ℕ
write_batch_byte_size sizes = write_batch_byte_size_from 0 sizes

abbrev pub no_messages : List Message → Bool
no_messages [] = true
no_messages (m ∷ ms) = false

-- The rest of `NewWriteBatch` for at least one message.
unfoldable pub fill_write_batch : ℕ → List Message → Validated WriteBatch
fill_write_batch origin messages = do
  owned ← clone_messages messages
  byte_size ← write_batch_byte_size owned.1
  ok (record { origin = origin; messages = owned.0; byte_size = byte_size })

unfoldable pub new_write_batch : ℕ → List Message → Validated WriteBatch
new_write_batch origin messages = do
  validate_write_origin origin
  reject_if (ltb max_write_batch_messages (length messages))
      (new_validation_error size_exceeded "write_batch_messages" max_write_batch_messages)
  if no_messages messages
      then ok (record { origin = origin; messages = []; byte_size = 0 })
      else fill_write_batch origin messages

abbrev pub max_history_job_id_bytes : ℕ
max_history_job_id_bytes = 128

abbrev pub max_history_chunk_records : ℕ
max_history_chunk_records = 32

abbrev pub max_history_chunk_bytes : ℕ
max_history_chunk_bytes = 131072

abbrev pub history_chunk_record_bytes : ℕ
history_chunk_record_bytes = 32

pub record HistoryJob : Type 0 where
  pub id : Bytes
  pub class : ℕ

unfoldable pub validate_history_job_id : Bytes → Validated (Unit {0})
validate_history_job_id value = do
  reject_if (is_empty value) (new_validation_error required "history_job_id" 0)
  reject_if (ltb max_history_job_id_bytes (length value))
      (new_validation_error too_long "history_job_id" max_history_job_id_bytes)
  reject_if (not (valid_string value))
      (new_validation_error invalid_utf8 "history_job_id" max_history_job_id_bytes)
  reject_if (has_control (runes value))
      (new_validation_error control_character "history_job_id" max_history_job_id_bytes)

-- `HistoryMetadata` is 1 and `HistoryUnknown` 4.
unfoldable pub validate_history_class : ℕ → Validated (Unit {0})
validate_history_class class = do
  reject_if (class == 0) (new_validation_error required "history_class" 0)
  reject_if (not (leb class 4)) (new_validation_error invalid_value "history_class" 0)

unfoldable pub new_history_job : Bytes → ℕ → Validated HistoryJob
new_history_job id class = do
  validate_history_job_id id
  validate_history_class class
  ok (record { id = id; class = class })

pub record HistoryChunk : Type 0 where
  pub messages : List Message
  pub byte_size : ℕ

-- The loop of `NewHistoryChunk`: a message is charged anew.
unfoldable pub charge_messages : List Message → Validated (List Message × List ℕ)
charge_messages [] = ok ([], [])
charge_messages (m ∷ ms) = do
  byte_size ← validate_message m
  rest ← charge_messages ms
  ok (record m { byte_size = byte_size } ∷ rest.0, byte_size ∷ rest.1)

unfoldable pub history_chunk_byte_size_from : ℕ → List ℕ → Validated ℕ
history_chunk_byte_size_from total [] = ok total
history_chunk_byte_size_from total (byte_size ∷ sizes) = do
  next ←
      add_record history_chunk_record_bytes max_history_chunk_bytes "history_chunk" total byte_size
  history_chunk_byte_size_from next sizes

unfoldable pub history_chunk_byte_size : List ℕ → Validated ℕ
history_chunk_byte_size sizes = history_chunk_byte_size_from 0 sizes

-- Without messages the loops give the zero chunk.
unfoldable pub new_history_chunk : List Message → Validated HistoryChunk
new_history_chunk messages = do
  reject_if (ltb max_history_chunk_records (length messages))
      (new_validation_error size_exceeded "history_chunk_records" max_history_chunk_records)
  owned ← charge_messages messages
  byte_size ← history_chunk_byte_size owned.1
  ok (record { messages = owned.0; byte_size = byte_size })
