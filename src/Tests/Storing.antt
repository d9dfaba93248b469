-- ===== src/Tests/Storing.antt =====
-- The store in memory (internal/store/memory.go) with one chat of three messages, and the writer
-- (internal/service/writer.go) on it.
use walite.Base.{
  ℕ, ◌≡◌, refl, pos, ◌≤ℤ◌, true, false, List, [], ◌∷◌, Bytes, bytes_eq, length, replicate, All,
  sort_by, insert_by, bytes_lt, if◌then◌else◌, none, some, Result, ok, err, arith,
}
use walite.Assoc.{lookup}
use walite.Model.Utf8.{valid_string, runes, decode_rune, is_control}
use walite.Model.Media.{no_media}
use walite.Model.Quote.{no_quote}
use walite.Model.Identifier.{ChatId, new_chat_id, new_message_id, validate_identifier, has_control}
use walite.Model.Identifier.Laws.{IsIdentifier, validate_identifier_iff}
use walite.Model.Message.{Message}
use walite.Model.Anchor.{Cursor, no_cursor, write_realtime, validate_write_origin, new_cursor}
use walite.Model.Normalize.{
  normalize_bounded_utf8, normalize_prefix, normalize_loop, output, output_bytes,
}
use walite.Model.Chat.{Chat, new_chat, validate_ingest_seq}
use walite.Model.Batch.{WriteBatch}
use walite.Model.Display.{
  DisplayMetadata, no_display, new_display_metadata, display_metadata_capacity,
}
use walite.Model.Retention.{PrunePlan}
use walite.SyncPolicy.{Policy, validate_policy, validate_snapshot}
use walite.Store.Memory.{
  Memory, MemoryChat, running, no_chat, check_context, new_memory, normalize_chat, ensure_at,
  ensure_chat, apply_display_metadata, capacity, rejected,
}
use walite.Store.Memory.Invariant.{IsMemory}
use walite.Store.Memory.Errors.{ensure_chat-error, apply_display_metadata-error}
use walite.Store.Merge.{conflicts, merge_message}
use walite.Store.Merge.Keeps.{Merged, merge_message-Merged}
use walite.Store.Page.{
  page, page_of, page_limit, behind, newer, older_than, validate_cursor, all_messages,
}
use walite.Store.Page.Walk.{walk, walk-all}
use walite.Store.Page.Bounds.{IsPage, page-IsPage}
use walite.Store.Prune.{retention_snapshot}
use walite.Store.Prune.Snapshot.{snapshot_from, retention_snapshot-valid}
use walite.Store.Steps.{Step, Reachable, Reachable-IsMemory}
use walite.Service.Writer.{Round, WriterError, prune_chat, prune_chats, apply_bounded_batch}
use walite.Store.Usage.{usage}
use walite.Store.Usage.Counts.{summed, usage-exact}
use walite.Service.Writer.Loop.{IsBounded, prune_chats-IsBounded}
use walite.Service.Writer.Prune.{Runs, prune_chat-bounded}
use walite.Service.Writer.Batch.{apply_bounded_batch-IsMemory}

abbrev family : ChatId
family = record { value = 0x63 ∷ 0x68 ∷ [] }

abbrev key : ℕ → Bytes
key n = 0x6D ∷ n ∷ []

abbrev message : ℕ → ℕ → Message
message n at = record {
  chat_id = family;
  message_id = record { value = key n };
  sent_at = pos at;
  from_me = false;
  text = 0x68 ∷ 0x69 ∷ [];
  quote = no_quote;
  media = no_media;
  sender_id = record { value = [] };
  is_group = false;
  body_truncated = false;
  body_retained = true;
  notification_eligible = false;
  byte_size = 6;
}

abbrev family_chat : MemoryChat
family_chat = record {
  chat = record no_chat { id = family };
  messages =
      (key 0x31, message 0x31 930)
      ∷ (key 0x32, message 0x32 990)
      ∷ (key 0x33, message 0x33 990)
      ∷ [];
  anchor = none;
  display_quality = 0;
}

abbrev one_chat : Memory
one_chat = record {
  max_chats = 2;
  chats = (family.value, family_chat) ∷ [];
  display = replicate display_metadata_capacity no_display;
  display_next = 0;
}

two_bytes :
    (b c : ℕ) → validate_identifier (b ∷ c ∷ []) "chat_id" ≡ ok tt → IsIdentifier (b ∷ c ∷ [])
two_bytes b c e = (validate_identifier_iff (b ∷ c ∷ []) "chat_id").0 e

family-IsIdentifier : IsIdentifier family.value
unfolding validate_identifier has_control valid_string decode_rune runes is_control
family-IsIdentifier = two_bytes 0x63 0x68 refl

first-IsIdentifier : IsIdentifier (key 0x31)
unfolding validate_identifier has_control valid_string decode_rune runes is_control
first-IsIdentifier = two_bytes 0x6D 0x31 refl

second-IsIdentifier : IsIdentifier (key 0x32)
unfolding validate_identifier has_control valid_string decode_rune runes is_control
second-IsIdentifier = two_bytes 0x6D 0x32 refl

third-IsIdentifier : IsIdentifier (key 0x33)
unfolding validate_identifier has_control valid_string decode_rune runes is_control
third-IsIdentifier = two_bytes 0x6D 0x33 refl

one_chat-IsMemory : IsMemory one_chat
unfolding lookup bytes_eq
one_chat-IsMemory = record {
  unique = (refl, tt);
  bounded = omega arith;
  entries = (
    record {
      key_valid = family-IsIdentifier;
      unique = (refl, (refl, (refl, tt)));
      bounded = omega arith;
      entries = (
        record {
          chat = refl;
          id = refl;
          id_valid = first-IsIdentifier;
          sent = refl;
          text_bounded = omega arith;
        },
        (
          record {
            chat = refl;
            id = refl;
            id_valid = second-IsIdentifier;
            sent = refl;
            text_bounded = omega arith;
          },
          (
            record {
              chat = refl;
              id = refl;
              id_valid = third-IsIdentifier;
              sent = refl;
              text_bounded = omega arith;
            },
            tt,
          ),
        ),
      );
      anchor = tt;
    },
    tt,
  );
  slots = refl;
  next = omega arith;
}

family-there : lookup family.value one_chat.chats ≡ some family_chat
unfolding lookup bytes_eq
family-there = refl

-- Pages of one message each.
walk-all_example :
    walk 552 one_chat family no_cursor 1 ≡ ok (sort_by newer (all_messages family_chat))
walk-all_example =
    walk-all one_chat family 1 552 one_chat-IsMemory family-there (omega arith) (omega arith)

abbrev two_newest : List Message
two_newest = message 0x33 990 ∷ message 0x32 990 ∷ []

abbrev after_two : Cursor
after_two = record { sent_at = pos 990; message_id = record { value = key 0x32 } }

first_page : page one_chat running family no_cursor (pos 2) ≡ ok (two_newest, after_two)
unfolding page page_of page_limit behind newer validate_cursor new_cursor new_chat_id new_message_id
    validate_identifier has_control valid_string decode_rune runes is_control lookup bytes_eq
    check_context sort_by insert_by bytes_lt older_than
first_page = refl

page-IsPage_example : IsPage no_cursor two_newest
page-IsPage_example = page-IsPage one_chat running family no_cursor (pos 2) first_page

abbrev drop_first : PrunePlan
drop_first = record {
  chat_id = family;
  delete_ids = record { value = key 0x31 } ∷ record { value = key 0x39 } ∷ [];
  replacement = some (record {
    chat_id = family;
    message_id = record { value = key 0x31 };
    sent_at = pos 930;
    from_me = false;
  });
}

retention_snapshot-valid_example :
    (retention_snapshot one_chat running family ≡ ok (snapshot_from family family_chat))
    × (validate_snapshot (snapshot_from family family_chat) ≡ ok tt)
retention_snapshot-valid_example =
    retention_snapshot-valid one_chat family one_chat-IsMemory family-there

abbrev no_body : Message
no_body = record (message 0x31 930) { text = []; body_retained = false; byte_size = 4 }

merge_message-Merged_example :
    Merged (message 0x31 930) no_body (merge_message (message 0x31 930) no_body)
unfolding conflicts
merge_message-Merged_example = merge_message-Merged (message 0x31 930) no_body refl refl refl

abbrev empty_store : Memory
empty_store = record one_chat { chats = [] }

made_empty : new_memory (pos 2) ≡ ok empty_store
unfolding new_memory
made_empty = refl

abbrev one_ensured : Memory
one_ensured = (ensure_chat empty_store running family_chat.chat).0

Reachable-IsMemory_example : IsMemory one_ensured
Reachable-IsMemory_example = Reachable-IsMemory (
    Reachable.stepped empty_store one_ensured (Reachable.created (pos 2) empty_store made_empty)
      (Step.ensures empty_store running family_chat.chat))

abbrev two_bodies : Policy
two_bodies = record { messages_per_chat = pos 2; max_age = pos 100; cache_bytes = pos 1000 }

two_bodies_valid : validate_policy two_bodies ≡ ok tt
unfolding validate_policy
two_bodies_valid = refl

abbrev at_thousand : Round
at_thousand = record {
  at_start = running;
  at_snapshot = running;
  at_usage = running;
  at_prune = running;
  now = pos 1000;
}

abbrev at_thousand-Runs : Runs at_thousand
at_thousand-Runs = record {
  at_start = refl;
  at_snapshot = refl;
  at_usage = refl;
  at_prune = refl;
  now = refl;
}

realtime_valid : validate_write_origin write_realtime ≡ ok tt
unfolding validate_write_origin
realtime_valid = refl

abbrev pruned_family : Memory × Result WriterError (Unit {0})
pruned_family = prune_chat two_bodies 551 at_thousand write_realtime one_chat family

prune_chat-bounded_example :
    (after : MemoryChat) × (pruned_family.1 ≡ ok tt)
    × (pos (length after.messages) ≤ℤ pos 2)
    × ((k : Bytes)
        → lookup k pruned_family.0.chats
          ≡ (if bytes_eq family.value k then some after else lookup k one_chat.chats))
prune_chat-bounded_example =
    prune_chat-bounded two_bodies 551 at_thousand write_realtime one_chat family one_chat-IsMemory
      family-there two_bodies_valid at_thousand-Runs realtime_valid (omega arith)

abbrev pruned_chats : Memory × Result WriterError (Unit {0})
pruned_chats = prune_chats two_bodies 551 (λ i. at_thousand) write_realtime one_chat 0 (family ∷ [])

prune_chats-IsBounded_example :
    (pruned_chats.1 ≡ ok tt)
    × All (λ (i : ChatId). IsBounded two_bodies pruned_chats.0 i.value) (family ∷ [])
prune_chats-IsBounded_example =
    prune_chats-IsBounded two_bodies 551 (λ i. at_thousand) write_realtime two_bodies_valid
      (λ i. at_thousand-Runs) realtime_valid (omega arith) one_chat (family ∷ []) one_chat-IsMemory
      ((family_chat, family-there), tt)

usage-exact_example : usage one_chat running ≡ ok (summed one_chat)
usage-exact_example = usage-exact one_chat (omega arith)

abbrev new_messages : WriteBatch
new_messages = record {
  origin = write_realtime;
  messages = message 0x34 995 ∷ message 0x35 996 ∷ [];
  byte_size = 76;
}

apply_bounded_batch-IsMemory_example :
    IsMemory
      (apply_bounded_batch two_bodies 551
        (λ i. at_thousand)
        running
        (λ i. at_thousand)
        one_chat
        new_messages).0
apply_bounded_batch-IsMemory_example =
    apply_bounded_batch-IsMemory two_bodies 551 (λ i. at_thousand) running (λ i. at_thousand)
      one_chat new_messages one_chat-IsMemory

-- There is no room for a third chat.
abbrev full_store : Memory
full_store = record one_chat { max_chats = 1 }

abbrev other_chat : Chat
other_chat = record no_chat { id = record { value = key 0x31 } }

no_room : (ensure_chat full_store running other_chat).1 ≡ err capacity
unfolding ensure_chat ensure_at normalize_chat new_chat validate_ingest_seq new_chat_id
    validate_identifier has_control valid_string decode_rune runes is_control lookup bytes_eq
    check_context normalize_bounded_utf8 normalize_prefix normalize_loop output output_bytes
no_room = refl

ensure_chat-error_example : (ensure_chat full_store running other_chat).0 ≡ full_store
ensure_chat-error_example = ensure_chat-error full_store running other_chat no_room

abbrev wrong_quality : DisplayMetadata
wrong_quality = record no_display { id = family; quality = 9 }

wrong_quality_refused : (apply_display_metadata one_chat running wrong_quality).1 ≡ err rejected
unfolding apply_display_metadata new_display_metadata new_chat_id validate_identifier has_control
    valid_string decode_rune runes is_control check_context
wrong_quality_refused = refl

apply_display_metadata-error_example :
    (apply_display_metadata one_chat running wrong_quality).0 ≡ one_chat
apply_display_metadata-error_example =
    apply_display_metadata-error one_chat running wrong_quality wrong_quality_refused
