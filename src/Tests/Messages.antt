-- ===== src/Tests/Messages.antt =====
-- Messages and their parts (internal/model) at concrete inputs.
use walite.Base.{◌+◌, ◌≤◌, ◌^◌, ◌≡◌, refl, ◌↔◌, pos, true, false, [], ◌∷◌, Bytes, some, ok, arith}
use walite.Model.Utf8.{decode_rune, is_control, runes, valid_string}
use walite.Model.Normalize.{
  max_retained_text_bytes, normalize_text, normalize_prefix, normalize_loop, normalize_bounded_utf8,
  output, output_bytes,
}
use walite.Model.Normalize.Spec.{IsBoundedPrefix, sanitize}
use walite.Model.Normalize.Results.{
  normalize_text-IsBoundedPrefix, normalize_bounded_utf8-IsBoundedPrefix, normalize_text-idempotent,
}
use walite.Model.Identifier.{
  new_chat_id, new_message_id, new_contact_id, validate_identifier, has_control,
}
use walite.Model.Identifier.Laws.{IsIdentifier, validate_identifier_iff}
use walite.Model.Media.{
  Media, no_media, validate_media, is_no_media, validate_some_media, clone_media, has_download,
  any_control, valid_download_metadata, valid_media_kind,
}
use walite.Model.Media.Bounds.{IsMedia, validate_media-IsMedia}
use walite.Model.Quote.{
  TextQuote, no_quote, is_no_quote, clone_text_quote, clone_some_quote, new_text_quote, new_quote,
  quote_end,
}
use walite.Model.Quote.Bounds.{IsQuote, clone_text_quote-IsQuote}
use walite.Model.Message.{
  Message, MessageInput, new_message, message_byte_size, checked_byte_sum, checked_byte_sum_from,
  max_int, normalized_event_byte_size, normalized_event_envelope_bytes,
}
use walite.Model.Message.Sum.{Adds, checked_byte_sum_iff}
use walite.Model.Message.Bounds.{IsMessage, new_message-IsMessage, new_message-event_size}

-- A letter, a byte that begins no rune, and a letter.
abbrev broken_text : Bytes
broken_text = 0x61 ∷ 0xFF ∷ 0x62 ∷ []

-- "é"
abbrev accented : Bytes
accented = 0xC3 ∷ 0xA9 ∷ []

normalize_text-broken : normalize_text broken_text ≡ (0x61 ∷ 0xEF ∷ 0xBF ∷ 0xBD ∷ 0x62 ∷ [], false)
unfolding normalize_text normalize_prefix normalize_loop output output_bytes valid_string
    decode_rune
normalize_text-broken = refl

normalize_bounded_utf8-cut : normalize_bounded_utf8 (0x61 ∷ accented) 2 ≡ (0x61 ∷ [], true)
unfolding normalize_bounded_utf8 normalize_prefix normalize_loop output output_bytes valid_string
    decode_rune
normalize_bounded_utf8-cut = refl

normalize_text-IsBoundedPrefix_example :
    IsBoundedPrefix max_retained_text_bytes (sanitize broken_text) (normalize_text broken_text)
normalize_text-IsBoundedPrefix_example = normalize_text-IsBoundedPrefix broken_text

normalize_bounded_utf8-IsBoundedPrefix_example :
    IsBoundedPrefix 2 (sanitize (0x61 ∷ accented)) (normalize_bounded_utf8 (0x61 ∷ accented) 2)
normalize_bounded_utf8-IsBoundedPrefix_example =
    normalize_bounded_utf8-IsBoundedPrefix (0x61 ∷ accented) 2

normalize_text-idempotent_example :
    normalize_text (normalize_text broken_text).0 ≡ ((normalize_text broken_text).0, false)
normalize_text-idempotent_example = normalize_text-idempotent broken_text

validate_identifier_iff_example :
    (validate_identifier accented "chat_id" ≡ ok tt) ↔ IsIdentifier accented
validate_identifier_iff_example = validate_identifier_iff accented "chat_id"

abbrev photo : Media
photo = record no_media {
  kind = 1;
  name = accented;
  direct_path = 0x2F ∷ 0x61 ∷ [];
  media_key = 1 ∷ [];
  file_sha256 = 2 ∷ [];
  file_enc_sha256 = 3 ∷ [];
  declared_bytes = 100;
}

photo-ok : validate_media photo ≡ ok tt
unfolding validate_media is_no_media validate_some_media has_download valid_download_metadata
    valid_media_kind any_control valid_string decode_rune runes is_control
photo-ok = refl

validate_media-IsMedia_example : IsMedia photo
validate_media-IsMedia_example = validate_media-IsMedia photo photo-ok

abbrev reply : TextQuote
reply = record no_quote { id = record { value = 0x71 ∷ [] }; text = accented }

reply-ok : clone_text_quote reply ≡ ok reply
unfolding clone_text_quote is_no_quote clone_some_quote new_text_quote new_quote quote_end
    new_message_id validate_identifier has_control valid_string decode_rune runes is_control
reply-ok = refl

clone_text_quote-IsQuote_example : IsQuote reply
clone_text_quote-IsQuote_example = clone_text_quote-IsQuote reply reply-ok

abbrev incoming : MessageInput
incoming = record {
  chat_id = 0x63 ∷ [];
  message_id = 0x6D ∷ [];
  sent_at = pos 990;
  from_me = false;
  text = broken_text;
  quote = reply;
  media = photo;
  sender_id = accented;
  is_group = true;
  body_truncated = false;
}

abbrev received : Message
received = record {
  chat_id = record { value = 0x63 ∷ [] };
  message_id = record { value = 0x6D ∷ [] };
  sent_at = pos 990;
  from_me = false;
  text = 0x61 ∷ 0xEF ∷ 0xBF ∷ 0xBD ∷ 0x62 ∷ [];
  quote = reply;
  media = photo;
  sender_id = record { value = accented };
  is_group = true;
  body_truncated = false;
  body_retained = true;
  notification_eligible = false;
  byte_size = 19;
}

incoming-ok : new_message incoming ≡ ok received
unfolding new_message new_chat_id new_message_id new_contact_id validate_identifier clone_media
    message_byte_size checked_byte_sum checked_byte_sum_from has_control normalize_text
    normalize_prefix normalize_loop output output_bytes valid_string decode_rune runes is_control
incoming-ok = rw (reply-ok, photo-ok) refl

new_message-IsMessage_example : IsMessage received
new_message-IsMessage_example = new_message-IsMessage incoming incoming-ok

new_message-event_size_example :
    (19 ≤ 24768) × (normalized_event_byte_size 19 ≡ ok (19 + normalized_event_envelope_bytes))
new_message-event_size_example = new_message-event_size incoming incoming-ok

-- The sum of the last two parts is one more than an `int` holds.
checked_byte_sum_iff_example :
    (checked_byte_sum (pos 1 ∷ pos max_int ∷ []) ≡ some (2 ^ 63))
    ↔ (Adds 0 (pos 1 ∷ pos max_int ∷ []) (2 ^ 63) × (2 ^ 63 ≤ max_int))
checked_byte_sum_iff_example =
    checked_byte_sum_iff (pos 1 ∷ pos max_int ∷ []) (2 ^ 63) (omega arith, (omega arith, tt))
