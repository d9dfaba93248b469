-- ===== src/Model/Message.antt =====
-- Messages and events (internal/model/model.go, normalize.go and, for `WithoutBody`, store.go).
pub mod Sum
pub mod Bounds
use walite.Base.{
  ℕ, ◌+◌, ◌-◌, ◌^◌, ℤ, pos, negsuc, Bool, true, false, ◌||◌, List, [], ◌∷◌, map, Bytes, ltb, not,
  Result, ok, err, ◌>>=◌, ◌>>◌, reject_if, length, if◌then◌else◌, Option, none, some,
}
use walite.Model.Error.{
  Validated, required, too_long, invalid_utf8, size_exceeded, new_validation_error,
}
use walite.Model.Time.{Time, is_zero}
use walite.Model.Utf8.{valid_string}
use walite.Model.Normalize.{max_retained_text_bytes, normalize_text}
use walite.Model.Identifier.{
  ChatId, ContactId, MessageId, new_chat_id, new_contact_id, new_message_id, validate_identifier,
  is_empty,
}
use walite.Model.Media.{Media, clone_media, validate_media}
use walite.Model.Quote.{TextQuote, no_quote, clone_text_quote}

-- The largest `int` of a 64-bit platform.
abbrev pub max_int : ℕ
max_int = 2 ^ 63 - 1

abbrev pub max_normalized_event_bytes : ℕ
max_normalized_event_bytes = 32768

abbrev pub normalized_event_envelope_bytes : ℕ
normalized_event_envelope_bytes = 256

pub record MessageInput : Type 0 where
  pub chat_id : Bytes
  pub message_id : Bytes
  pub sent_at : Time
  pub from_me : Bool
  pub text : Bytes
  pub quote : TextQuote
  pub media : Media
  pub sender_id : Bytes
  pub is_group : Bool
  pub body_truncated : Bool

pub record Message : Type 0 where
  pub chat_id : ChatId
  pub message_id : MessageId
  pub sent_at : Time
  pub from_me : Bool
  pub text : Bytes
  pub quote : TextQuote
  pub media : Media
  pub sender_id : ContactId
  pub is_group : Bool
  pub body_truncated : Bool
  pub body_retained : Bool
  pub notification_eligible : Bool
  pub byte_size : ℕ

-- `checkedByteSum` from a running total; `none` is the result `(0, false)`.
unfoldable pub checked_byte_sum_from : ℕ → List ℤ → Option ℕ
checked_byte_sum_from total [] = some total
checked_byte_sum_from total (pos part ∷ parts) =
    if ltb (max_int - part) total then none else checked_byte_sum_from (total + part) parts
checked_byte_sum_from total (negsuc part ∷ parts) = none

unfoldable pub checked_byte_sum : List ℤ → Option ℕ
checked_byte_sum parts = checked_byte_sum_from 0 parts

abbrev pub len : Bytes → ℤ
len s = pos (length s)

unfoldable pub message_byte_size : Bytes → Bytes → Bytes → TextQuote → Media → ContactId → Option ℕ
message_byte_size chat_id message_id text quote media sender = checked_byte_sum (
    map len (
      chat_id ∷ message_id ∷ text ∷ quote.id.value ∷ quote.text ∷ quote.participant_id.value
      ∷ quote.media.name ∷ quote.media.mime_type ∷ media.name ∷ media.mime_type ∷ media.direct_path
      ∷ media.media_key ∷ media.file_sha256 ∷ media.file_enc_sha256 ∷ sender.value ∷ []))

abbrev pub size_of : Message → Option ℕ
size_of m = message_byte_size m.chat_id.value m.message_id.value m.text m.quote m.media m.sender_id

-- `size, _ := messageByteSize(…)`
abbrev pub size_or_zero : Option ℕ → ℕ
size_or_zero none = 0
size_or_zero (some n) = n

abbrev pub require_size : Option ℕ → Validated ℕ
require_size none = err (
    new_validation_error size_exceeded "message"
      (max_normalized_event_bytes - normalized_event_envelope_bytes))
require_size (some n) = ok n

unfoldable pub new_message : MessageInput → Validated Message
new_message input = do
  chat_id ← new_chat_id input.chat_id
  message_id ← new_message_id input.message_id
  reject_if (is_zero input.sent_at) (new_validation_error required "sent_at" 0)
  let (text, truncated) = normalize_text input.text
  quote ← clone_text_quote input.quote
  media ← clone_media input.media
  sender_id ←
      if is_empty input.sender_id
      then ok (record { value = [] })
      else new_contact_id input.sender_id
  byte_size ←
      require_size (message_byte_size chat_id.value message_id.value text quote media sender_id)
  ok (record {
    chat_id = chat_id;
    message_id = message_id;
    sent_at = input.sent_at;
    from_me = input.from_me;
    text = text;
    quote = quote;
    media = media;
    sender_id = sender_id;
    is_group = input.is_group;
    body_truncated = truncated || input.body_truncated;
    body_retained = true;
    notification_eligible = false;
    byte_size = byte_size;
  })

unfoldable pub validate_message : Message → Validated ℕ
validate_message m = do
  validate_identifier m.chat_id.value "chat_id"
  validate_identifier m.message_id.value "message_id"
  reject_if (is_zero m.sent_at) (new_validation_error required "sent_at" 0)
  reject_if (ltb max_retained_text_bytes (length m.text))
      (new_validation_error too_long "text" max_retained_text_bytes)
  reject_if (not (valid_string m.text))
      (new_validation_error invalid_utf8 "text" max_retained_text_bytes)
  quote ← clone_text_quote m.quote
  validate_media m.media
  (if is_empty m.sender_id.value then ok tt else validate_identifier m.sender_id.value "sender_id")
  require_size (size_of m)

-- The charge of a value with changed fields.
abbrev pub recharge : Message → Message
recharge m = record m { byte_size = size_or_zero (size_of m) }

unfoldable pub with_chat_id : Message → ChatId → Validated Message
with_chat_id m id = do
  owned_id ← new_chat_id id.value
  size ← validate_message m
  ok (recharge (record m { chat_id = owned_id }))

unfoldable pub with_sender : Message → ContactId → Bool → Message
with_sender m sender group = recharge (record m { sender_id = sender; is_group = group })

unfoldable pub with_quote : Message → TextQuote → Message
with_quote m quote = recharge (record m { quote = quote })

-- An invalid medium leaves the message as it is.
unfoldable pub with_media : Message → Media → Message
with_media m media = elim (clone_media media) [
  | ok owned ↦ recharge (record m { media = owned })
  | err e ↦ m
]

unfoldable pub with_notification_eligibility : Message → Bool → Message
with_notification_eligibility m eligible = record m { notification_eligible = eligible }

unfoldable pub without_body : Message → Message
without_body m = recharge (record m { text = []; quote = no_quote; body_retained = false })

pub record Event : Type 0 where
  pub message : Message
  pub received_at : Time
  pub byte_size : ℕ

unfoldable pub normalized_event_byte_size : ℕ → Validated ℕ
normalized_event_byte_size message_bytes =
    elim (checked_byte_sum (pos normalized_event_envelope_bytes ∷ pos message_bytes ∷ [])) [
      | none ↦ err (new_validation_error size_exceeded "event" max_normalized_event_bytes)
      | some n ↦
          if ltb max_normalized_event_bytes n
          then err (new_validation_error size_exceeded "event" max_normalized_event_bytes)
          else ok n
    ]

unfoldable pub new_event : Message → Time → Validated Event
new_event m received_at = do
  reject_if (is_zero received_at) (new_validation_error required "received_at" 0)
  message_bytes ← validate_message m
  event_bytes ← normalized_event_byte_size message_bytes
  ok (record {
    message = record m { byte_size = message_bytes };
    received_at = received_at;
    byte_size = event_bytes;
  })
