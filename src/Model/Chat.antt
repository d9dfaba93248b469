-- ===== src/Model/Chat.antt =====
-- Contacts and chats (internal/model/store.go).
pub mod Bounds
use walite.Base.{
  ℕ, ◌-◌, ◌^◌, ltb, Bool, true, false, not, Bytes, Result, ok, err, ◌>>=◌, ◌>>◌, reject_if,
  if◌then◌else◌, [],
}
use walite.Model.Error.{Validated, invalid_value, new_validation_error}
use walite.Model.Time.{Time}
use walite.Model.Normalize.{normalize_bounded_utf8}
use walite.Model.Identifier.{ChatId, ContactId, is_empty, new_chat_id, new_contact_id}

abbrev pub max_chat_display_name_bytes : ℕ
max_chat_display_name_bytes = 1024

abbrev pub max_contact_display_name_bytes : ℕ
max_contact_display_name_bytes = 1024

pub record ContactInput : Type 0 where
  pub id : Bytes
  pub display_name : Bytes
  pub updated_at : Time
  pub ingest_seq : ℕ

pub record Contact : Type 0 where
  pub id : ContactId
  pub display_name : Bytes
  pub name_truncated : Bool
  pub updated_at : Time
  pub ingest_seq : ℕ

-- `^uint64(0)>>1`
abbrev pub max_ingest_seq : ℕ
max_ingest_seq = 2 ^ 63 - 1

unfoldable pub validate_ingest_seq : ℕ → Validated (Unit {0})
validate_ingest_seq sequence =
    reject_if (ltb max_ingest_seq sequence) (new_validation_error invalid_value "ingest_seq" 0)

unfoldable pub new_contact : ContactInput → Validated Contact
new_contact input = do
  id ← new_contact_id input.id
  validate_ingest_seq input.ingest_seq
  let (display_name, truncated) =
      normalize_bounded_utf8 input.display_name max_contact_display_name_bytes
  ok (record {
    id = id;
    display_name = display_name;
    name_truncated = truncated;
    updated_at = input.updated_at;
    ingest_seq = input.ingest_seq;
  })

pub record ChatInput : Type 0 where
  pub id : Bytes
  pub contact_id : Bytes
  pub display_name : Bytes
  pub is_group : Bool
  pub last_message_at : Time
  pub unread_count : ℕ
  pub muted : Bool
  pub archived : Bool
  pub placeholder : Bool
  pub updated_at : Time
  pub ingest_seq : ℕ

pub record Chat : Type 0 where
  pub id : ChatId
  pub contact_id : ContactId
  pub has_contact : Bool
  pub display_name : Bytes
  pub name_truncated : Bool
  pub is_group : Bool
  pub last_message_at : Time
  pub unread_count : ℕ
  pub muted : Bool
  pub archived : Bool
  pub placeholder : Bool
  pub updated_at : Time
  pub ingest_seq : ℕ

unfoldable pub new_chat : ChatInput → Validated Chat
new_chat input = do
  id ← new_chat_id input.id
  contact_id ←
      if is_empty input.contact_id
      then ok (record { value = [] })
      else new_contact_id input.contact_id
  validate_ingest_seq input.ingest_seq
  let (display_name, truncated) =
      normalize_bounded_utf8 input.display_name max_chat_display_name_bytes
  ok (record {
    id = id;
    contact_id = contact_id;
    has_contact = not (is_empty input.contact_id);
    display_name = display_name;
    name_truncated = truncated;
    is_group = input.is_group;
    last_message_at = input.last_message_at;
    unread_count = input.unread_count;
    muted = input.muted;
    archived = input.archived;
    placeholder = input.placeholder;
    updated_at = input.updated_at;
    ingest_seq = input.ingest_seq;
  })
