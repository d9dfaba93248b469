-- ===== src/Model/Chat/Bounds.antt =====
-- What the constructors of contacts and chats accept.
use walite.Base.{
  ◌≤◌, ◌≡◌, refl, true, [], ◌∷◌, Bytes, length, ok, >>=-eq-ok, >>-eq-ok, subst, arith, not,
}
use walite.Model.Utf8.{valid_string}
use walite.Model.Normalize.{normalize_bounded_utf8}
use walite.Model.Normalize.Results.{normalize_bounded_utf8-IsBoundedPrefix}
use walite.Model.Identifier.{
  ContactId, is_empty, new_contact_id, validate_identifier, max_identifier_bytes,
}
use walite.Model.Identifier.Laws.{IsIdentifier, new_chat_id-then}
use walite.Model.Message.Bounds.{sender_of, sender_of-bounded}
use walite.Model.Chat.{
  ChatInput, Chat, new_chat, validate_ingest_seq, max_chat_display_name_bytes, max_ingest_seq,
}

pub record IsChat (c : Chat) : Type 0 where
  pub identifier : IsIdentifier c.id.value
  pub contact_bounded : length c.contact_id.value ≤ max_identifier_bytes
  pub contact_known : c.has_contact ≡ not (is_empty c.contact_id.value)
  pub name_bounded : length c.display_name ≤ max_chat_display_name_bytes
  pub name_valid : valid_string c.display_name ≡ true
  pub sequence_bounded : c.ingest_seq ≤ max_ingest_seq

contact-same : (given : Bytes) {c : ContactId} → sender_of given ≡ ok c → c.value ≡ given
unfolding new_contact_id
contact-same [] e = ground arith
contact-same (b ∷ s) e =
    let (u, accepted, made) = >>=-eq-ok (validate_identifier (b ∷ s) "contact_id") _ e in
    ground arith

-- What `new_chat` makes of the parts that it checked.
abbrev assembled : ChatInput → ContactId → Chat
assembled input contact = record {
  id = record { value = input.id };
  contact_id = contact;
  has_contact = not (is_empty input.contact_id);
  display_name = (normalize_bounded_utf8 input.display_name max_chat_display_name_bytes).0;
  name_truncated = (normalize_bounded_utf8 input.display_name max_chat_display_name_bytes).1;
  is_group = input.is_group;
  last_message_at = input.last_message_at;
  unread_count = input.unread_count;
  muted = input.muted;
  archived = input.archived;
  placeholder = input.placeholder;
  updated_at = input.updated_at;
  ingest_seq = input.ingest_seq;
}

-- A chat that `NewChat` makes has an accepted identifier, a display name of at most 1024 bytes that
-- is valid UTF-8, a contact within the limit and marked as known exactly where there is one, and a
-- sequence that a signed 64-bit integer holds.
pub new_chat-IsChat : (input : ChatInput) {c : Chat} → new_chat input ≡ ok c → IsChat c
unfolding new_chat validate_ingest_seq
new_chat-IsChat input {c} e =
    let (chat, e1) = new_chat_id-then input.id _ e in
    let (contact, known, e2) = >>=-eq-ok (sender_of input.contact_id) _ e1 in
    let (sequence, e3) = >>-eq-ok (validate_ingest_seq input.ingest_seq) _ e2 in
    let made : assembled input contact ≡ c = ground arith in
    let name =
      normalize_bounded_utf8-IsBoundedPrefix input.display_name max_chat_display_name_bytes in
    let same = contact-same input.contact_id known in
    subst IsChat made (record {
      identifier = chat;
      contact_bounded = sender_of-bounded input.contact_id known;
      contact_known = rw same refl;
      name_bounded = name.within;
      name_valid = name.is_valid;
      sequence_bounded = ground arith;
    })
