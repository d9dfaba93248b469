-- ===== src/Model/Quote.antt =====
-- Reply references (internal/model/text_quote.go).
pub mod Bounds
use walite.Base.{
  ℕ, zero, suc, ◌==◌, Bool, true, false, ◌&&◌, [], Bytes, ltb, not, Result, ok, err, ◌>>=◌, ◌>>◌,
  reject_if, length, get_or, take, if◌then◌else◌,
}
use walite.Model.Error.{Validated, required, too_long, invalid_utf8, new_validation_error}
use walite.Model.Utf8.{valid_string, later}
use walite.Model.Normalize.{max_retained_text_bytes}
use walite.Model.Identifier.{ChatId, MessageId, new_chat_id, new_message_id, is_empty}
use walite.Model.Media.{Media, no_media, is_no_media, new_media}

abbrev pub max_quote_text_bytes : ℕ
max_quote_text_bytes = 1024

pub record TextQuote : Type 0 where
  pub id : MessageId
  pub text : Bytes
  pub from_me : Bool
  pub media : Media
  pub participant_id : ChatId

abbrev pub no_quote : TextQuote
no_quote = record {
  id = record { value = [] };
  text = [];
  from_me = false;
  media = no_media;
  participant_id = record { value = [] };
}

-- `quote == (TextQuote{})`
unfoldable pub is_no_quote : TextQuote → Bool
is_no_quote q =
    is_empty q.id.value
    && (is_empty q.text
        && (not q.from_me && (is_no_media q.media && is_empty q.participant_id.value)))

-- `for !utf8.RuneStart(text[end]) { end-- }`: byte 0 of a valid text starts a rune, so the loop ends
-- there at the latest.
unfoldable pub rune_start_before : Bytes → ℕ → ℕ
rune_start_before text zero = 0
rune_start_before text (suc n) =
    if later (get_or text (suc n) 0) then rune_start_before text n else suc n

unfoldable pub quote_end : Bytes → ℕ
quote_end text =
    if ltb max_quote_text_bytes (length text)
    then rune_start_before text max_quote_text_bytes
    else length text

unfoldable pub new_quote : Bytes → Bytes → Bool → Media → Bool → Validated TextQuote
new_quote id text from_me media require_text = do
  message_id ← new_message_id id
  reject_if (require_text && is_empty text) (new_validation_error required "quote_text" 0)
  reject_if (ltb max_retained_text_bytes (length text))
      (new_validation_error too_long "quote_text" max_retained_text_bytes)
  reject_if (not (valid_string text))
      (new_validation_error invalid_utf8 "quote_text" max_quote_text_bytes)
  ok (record {
    id = message_id;
    text = take (quote_end text) text;
    from_me = from_me;
    media = media;
    participant_id = record { value = [] };
  })

unfoldable pub new_text_quote : Bytes → Bytes → Bool → Validated TextQuote
new_text_quote id text from_me = new_quote id text from_me no_media true

unfoldable pub new_media_quote : Bytes → Bytes → Bool → Media → Validated TextQuote
new_media_quote id caption from_me media = do
  reject_if (media.kind == 0) (new_validation_error required "quote_media" 0)
  owned ← new_media media.kind media.name media.mime_type
  new_quote id caption from_me owned false

unfoldable pub with_participant : TextQuote → Bytes → Validated TextQuote
with_participant quote id = do
  participant ← new_chat_id id
  ok (record quote { participant_id = participant })

-- `cloneTextQuote` behind its test for the zero value.
unfoldable pub clone_some_quote : TextQuote → Validated TextQuote
clone_some_quote q = do
  reject_if (ltb max_quote_text_bytes (length q.text))
      (new_validation_error too_long "quote_text" max_quote_text_bytes)
  owned ←
      if not (q.media.kind == 0)
      then new_media_quote q.id.value q.text q.from_me q.media
      else new_text_quote q.id.value q.text q.from_me
  if is_empty q.participant_id.value
      then ok owned
      else with_participant owned q.participant_id.value

unfoldable pub clone_text_quote : TextQuote → Validated TextQuote
clone_text_quote q = if is_no_quote q then ok no_quote else clone_some_quote q
