-- ===== src/Tests/Collections.antt =====
-- Chats and collections of messages (internal/model/store.go, history.go) at concrete inputs.
use walite.Base.{◌≤◌, ◌≡◌, refl, ◌↔◌, pos, true, false, [], ◌∷◌, ok, arith}
use walite.Model.Utf8.{valid_string, decode_rune, runes, is_control}
use walite.Model.Normalize.{normalize_bounded_utf8, normalize_prefix}
use walite.Model.Identifier.{new_chat_id, new_contact_id, validate_identifier, has_control}
use walite.Model.Chat.{ChatInput, Chat, new_chat, validate_ingest_seq}
use walite.Model.Chat.Bounds.{IsChat, new_chat-IsChat}
use walite.Model.Batch.{
  write_batch_byte_size, history_chunk_byte_size, history_chunk_record_bytes,
  max_history_chunk_bytes,
}
use walite.Model.Batch.Charge.{charge, write_batch_byte_size-fits, history_chunk_byte_size_iff}

abbrev group_input : ChatInput
group_input = record {
  id = 0x67 ∷ [];
  contact_id = 0x70 ∷ [];
  display_name = 0xC3 ∷ 0xA9 ∷ [];
  is_group = true;
  last_message_at = pos 990;
  unread_count = 2;
  muted = false;
  archived = false;
  placeholder = false;
  updated_at = pos 995;
  ingest_seq = 7;
}

abbrev group_chat : Chat
group_chat = record {
  id = record { value = 0x67 ∷ [] };
  contact_id = record { value = 0x70 ∷ [] };
  has_contact = true;
  display_name = 0xC3 ∷ 0xA9 ∷ [];
  name_truncated = false;
  is_group = true;
  last_message_at = pos 990;
  unread_count = 2;
  muted = false;
  archived = false;
  placeholder = false;
  updated_at = pos 995;
  ingest_seq = 7;
}

group_input-ok : new_chat group_input ≡ ok group_chat
unfolding new_chat validate_ingest_seq new_chat_id new_contact_id validate_identifier has_control
    normalize_bounded_utf8 normalize_prefix valid_string decode_rune runes is_control
group_input-ok = refl

new_chat-IsChat_example : IsChat group_chat
new_chat-IsChat_example = new_chat-IsChat group_input group_input-ok

write_batch_byte_size-fits_example : write_batch_byte_size (100 ∷ 24768 ∷ []) ≡ ok 24932
write_batch_byte_size-fits_example =
    write_batch_byte_size-fits (100 ∷ 24768 ∷ []) (omega arith) (omega arith, (omega arith, tt))

history_chunk_byte_size_iff_example :
    (history_chunk_byte_size (100 ∷ 200 ∷ []) ≡ ok 364)
    ↔ ((364 ≡ charge history_chunk_record_bytes (100 ∷ 200 ∷ [])) × (364 ≤ max_history_chunk_bytes))
history_chunk_byte_size_iff_example = history_chunk_byte_size_iff (100 ∷ 200 ∷ []) 364
