-- ===== src/Model/Message/Bounds.antt =====
-- What `NewMessage` makes: bounded fields, and the exact charge of their bytes.
use walite.Base.{
  ℕ, ◌+◌, ◌-◌, ◌≤◌, true, false, ◌||◌, List, [], ◌∷◌, map, Bytes, ◌≡◌, length, arith, ltb, Option,
  none, some, Bool-cases, inl, inr, subst, ok, >>=-eq-ok, if◌then◌else◌, reject_if-then,
}
use walite.Model.Error.{Validated, required, new_validation_error}
use walite.Model.Time.{is_zero}
use walite.Model.Utf8.{valid_string}
use walite.Model.Normalize.{max_retained_text_bytes, normalize_text}
use walite.Model.Normalize.Results.{normalize_text-IsBoundedPrefix}
use walite.Model.Identifier.{
  ContactId, is_empty, max_identifier_bytes, new_contact_id, validate_identifier,
}
use walite.Model.Identifier.Laws.{
  IsIdentifier, new_chat_id-then, new_message_id-then, validate_identifier_iff,
}
use walite.Model.Media.{Media, clone_media}
use walite.Model.Media.Bounds.{IsMedia, clone_media-IsMedia}
use walite.Model.Quote.{TextQuote, clone_text_quote}
use walite.Model.Quote.Bounds.{IsQuote, clone_text_quote-IsQuote}
use walite.Model.Message.{
  Message, MessageInput, new_message, message_byte_size, checked_byte_sum_from, checked_byte_sum,
  require_size, len, max_int, size_of, normalized_event_byte_size, normalized_event_envelope_bytes,
}

-- The bytes of the message's strings.
abbrev pub charged : Message → ℕ
charged m =
    length m.chat_id.value
    + length m.message_id.value
    + length m.text
    + length m.quote.id.value
    + length m.quote.text
    + length m.quote.participant_id.value
    + length m.quote.media.name
    + length m.quote.media.mime_type
    + length m.media.name
    + length m.media.mime_type
    + length m.media.direct_path
    + length m.media.media_key
    + length m.media.file_sha256
    + length m.media.file_enc_sha256
    + length m.sender_id.value

pub record IsMessage (m : Message) : Type 0 where
  pub chat : IsIdentifier m.chat_id.value
  pub message : IsIdentifier m.message_id.value
  pub sent : is_zero m.sent_at ≡ false
  pub text_bounded : length m.text ≤ max_retained_text_bytes
  pub text_valid : valid_string m.text ≡ true
  pub quote : IsQuote m.quote
  pub media : IsMedia m.media
  pub sender_bounded : length m.sender_id.value ≤ max_identifier_bytes
  pub charge : m.byte_size ≡ charged m

-- What the parts of a total come to.
abbrev total_length : List Bytes → ℕ
total_length [] = 0
total_length (s ∷ ss) = length s + total_length ss

checked_byte_sum-total_length :
    (total : ℕ) (ss : List Bytes) {n : ℕ}
    → checked_byte_sum_from total (map len ss) ≡ some n
    → n ≡ total + total_length ss
unfolding checked_byte_sum_from
checked_byte_sum-total_length total [] e = ground arith
checked_byte_sum-total_length total (s ∷ ss) {n} e =
    elim (Bool-cases (ltb (max_int - length s) total)) [
      | inl over ↦ absurd (ground arith)
      | inr fits ↦
          let ih : n ≡ total + length s + total_length ss =
            checked_byte_sum-total_length (total + length s) ss (ground arith) in
          omega arith
    ]

size_of-charged : (m : Message) {n : ℕ} → size_of m ≡ some n → n ≡ charged m
unfolding message_byte_size checked_byte_sum
size_of-charged m {n} e =
    let exact : n ≡ 0 + total_length parts = checked_byte_sum-total_length 0 parts e in omega arith
  where
    parts : List Bytes
    parts =
        m.chat_id.value ∷ m.message_id.value ∷ m.text ∷ m.quote.id.value ∷ m.quote.text
        ∷ m.quote.participant_id.value ∷ m.quote.media.name ∷ m.quote.media.mime_type ∷ m.media.name
        ∷ m.media.mime_type ∷ m.media.direct_path ∷ m.media.media_key ∷ m.media.file_sha256
        ∷ m.media.file_enc_sha256 ∷ m.sender_id.value ∷ []

abbrev pub sender_of : Bytes → Validated ContactId
sender_of sender = if is_empty sender then ok (record { value = [] }) else new_contact_id sender

pub sender_of-bounded :
    (sender : Bytes) {c : ContactId}
    → sender_of sender ≡ ok c
    → length c.value ≤ max_identifier_bytes
unfolding new_contact_id
sender_of-bounded [] {c} e =
    let same : record { value = [] } ≡ c = ground arith in
    subst (λ c. length c.value ≤ max_identifier_bytes) same (omega arith)
sender_of-bounded (b ∷ s) {c} e =
    let (u, accepted, made) = >>=-eq-ok (validate_identifier (b ∷ s) "contact_id") _ e in
    let valid = (validate_identifier_iff (b ∷ s) "contact_id").0 accepted in
    let same : record { value = b ∷ s } ≡ c = ground arith in
    subst (λ c. length c.value ≤ max_identifier_bytes) same valid.bounded

require_size-some : (size : Option ℕ) {n : ℕ} → require_size size ≡ ok n → size ≡ some n
require_size-some none e = cc
require_size-some (some k) e = ground arith

-- What `new_message` makes of the parts that it checked.
abbrev assembled : MessageInput → TextQuote → Media → ContactId → ℕ → Message
assembled input quote media sender size = record {
  chat_id = record { value = input.chat_id };
  message_id = record { value = input.message_id };
  sent_at = input.sent_at;
  from_me = input.from_me;
  text = (normalize_text input.text).0;
  quote = quote;
  media = media;
  sender_id = sender;
  is_group = input.is_group;
  body_truncated = (normalize_text input.text).1 || input.body_truncated;
  body_retained = true;
  notification_eligible = false;
  byte_size = size;
}

-- A message that `NewMessage` makes has accepted identifiers, a time that is not zero, a text that
-- is valid UTF-8 and within its limit, and a quote, media and a sender with strings within theirs;
-- its charge is the sum of the lengths of its strings.
pub new_message-IsMessage :
    (input : MessageInput) {m : Message} → new_message input ≡ ok m → IsMessage m
unfolding new_message
new_message-IsMessage input {m} e =
    let (chat, e1) = new_chat_id-then input.chat_id _ e in
    let (message, e2) = new_message_id-then input.message_id _ e1 in
    let (sent, e3) =
      reject_if-then (is_zero input.sent_at) (new_validation_error required "sent_at" 0) _ e2 in
    let (quote, quoted, e4) = >>=-eq-ok (clone_text_quote input.quote) _ e3 in
    let (media, cloned, e5) = >>=-eq-ok (clone_media input.media) _ e4 in
    let (sender, sent_by, e6) = >>=-eq-ok (sender_of input.sender_id) _ e5 in
    let (size, sized, e7) =
      >>=-eq-ok
        (require_size (
          message_byte_size input.chat_id input.message_id (normalize_text input.text).0 quote media
            sender))
        _ e6 in
    let made : assembled input quote media sender size ≡ m = ground arith in
    let text = normalize_text-IsBoundedPrefix input.text in
    subst IsMessage made (record {
      chat = chat;
      message = message;
      sent = sent;
      text_bounded = text.within;
      text_valid = text.is_valid;
      quote = clone_text_quote-IsQuote input.quote quoted;
      media = clone_media-IsMedia input.media cloned;
      sender_bounded = sender_of-bounded input.sender_id sent_by;
      charge =
          size_of-charged (assembled input quote media sender size) (require_size-some _ sized);
    })

-- A message that `NewMessage` makes takes at most 24,768 bytes, so that the event around it always
-- has a charge, which is 256 bytes more.
pub new_message-event_size :
    (input : MessageInput) {m : Message}
    → new_message input ≡ ok m
    → (m.byte_size ≤ 24768)
      × (normalized_event_byte_size m.byte_size
          ≡ ok (m.byte_size + normalized_event_envelope_bytes))
unfolding normalized_event_byte_size checked_byte_sum checked_byte_sum_from
new_message-event_size input {m} e =
    let v = new_message-IsMessage input e in
    let chat = v.chat.bounded in
    let message = v.message.bounded in
    let text = v.text_bounded in
    let small : m.byte_size ≤ 24768 = omega (
      arith, v.charge, chat, message, text, v.sender_bounded, v.quote.id_bounded,
      v.quote.text_bounded, v.quote.participant_bounded, v.quote.name_bounded, v.quote.mime_bounded,
      v.media.name_bounded, v.media.mime_bounded, v.media.path_bounded, v.media.key_bounded,
      v.media.hash_bounded, v.media.enc_hash_bounded,
    ) in
    (small, ground arith)
