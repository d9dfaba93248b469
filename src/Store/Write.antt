-- ===== src/Store/Write.antt =====
-- The atomic write of a batch (`writeBatch` of internal/store/memory.go): once its messages are staged, the
-- chats are advanced, and then all is stored.
pub mod Room
pub mod Assembly
pub mod Chats
pub mod Batch
pub mod Keeps
use walite.Base.{
  ℕ, zero, suc, ◌+◌, ◌==◌, Bool, true, false, ◌&&◌, ◌||◌, not, List, [], ◌∷◌, ◌++◌, Bytes, bytes_eq,
  ltb, Result, ok, err, ◌>>=◌, ◌>>◌, reject_if, length, Option, none, some, if◌then◌else◌, pos,
}
use walite.Assoc.{Assoc, lookup, insert}
use walite.Model.Error.{Validated}
use walite.Model.Time.{zero_time}
use walite.Model.Identifier.{ChatId}
use walite.Model.Message.{Message, with_notification_eligibility}
use walite.Model.Anchor.{write_realtime}
use walite.Model.Chat.{Chat, ChatInput, new_chat}
use walite.Model.Batch.{WriteBatch, new_write_batch}
use walite.Model.Display.{with_display_metadata}
use walite.Model.LiveEvent.{LiveEvent, new_live_message_committed, new_live_event_batch}
use walite.Model.Retention.{max_retention_snapshot_summaries}
use walite.Store.Memory.{
  Memory, MemoryChat, StoreError, Context, rejected, capacity, check_context, or_rejected, no_chat,
  advance_chat_for_message, display_for,
}
use walite.Store.Merge.{conflicts, merge_message}
use walite.Store.Stage.{
  Staging, no_staging, chat_key, message_key, find_staged, stage_messages, check_room, has_room,
  stored_count, new_count,
}

-- `NewChat` with a key and the mark of a placeholder alone.
abbrev pub placeholder_input : Bytes → ChatInput
placeholder_input key = record {
  id = key;
  contact_id = [];
  display_name = [];
  is_group = false;
  last_message_at = zero_time;
  unread_count = 0;
  muted = false;
  archived = false;
  placeholder = true;
  updated_at = zero_time;
  ingest_seq = 0;
}

abbrev pub chat_or_new : Bytes → Option Chat → Option MemoryChat → Result StoreError Chat
chat_or_new key (some c) stored = ok c
chat_or_new key none (some c) = ok c.chat
chat_or_new key none none = or_rejected (new_chat (placeholder_input key))

-- The variables of the second loop.
pub record Advance : Type 0 where
  pub chats : Assoc Chat
  pub events : List LiveEvent

-- `committed := staged[chatKey][…]`, which is there for each message of the batch.
abbrev pub or_message : Message → Option Message → Message
or_message m none = m
or_message m (some n) = n

abbrev pub emit : Bool → Message → Chat → List LiveEvent → Result StoreError (List LiveEvent)
emit false m c events = ok events
emit true m c events =
    or_rejected (new_live_message_committed m c.unread_count c.last_message_at) >>= λ event.
    ok (events ++ (event ∷ []))

unfoldable pub advance_one :
    Memory → Bool → Bool → List Message → Advance → Message → Result StoreError Advance
advance_one s realtime emit_live staged a m = do
  chat ← chat_or_new (chat_key m) (lookup (chat_key m) a.chats) (lookup (chat_key m) s.chats)
  advanced ← or_rejected (
      advance_chat_for_message (with_display_metadata chat (display_for s.display (chat_key m))) m
        realtime)
  events ←
      emit emit_live (or_message m (find_staged (chat_key m) (message_key m) staged)) advanced
        a.events
  ok (record { chats = insert (chat_key m) advanced a.chats; events = events })

-- The second loop, over the messages that were inserted.
unfoldable pub advance_all :
    Memory
    → Bool
    → Bool
    → List Message
    → List Bool
    → List Message
    → Advance
    → Result StoreError Advance
advance_all s realtime emit_live staged (true ∷ inserted) (m ∷ ms) a = do
  next ← advance_one s realtime emit_live staged a m
  advance_all s realtime emit_live staged inserted ms next
advance_all s realtime emit_live staged (false ∷ inserted) (m ∷ ms) a =
    advance_all s realtime emit_live staged inserted ms a
advance_all s realtime emit_live staged [] ms a = ok a
advance_all s realtime emit_live staged (i ∷ inserted) [] a = ok a

abbrev pub empty_chat : MemoryChat
empty_chat = record { chat = no_chat; messages = []; anchor = none; display_quality = 0 }

abbrev pub or_empty : Option MemoryChat → MemoryChat
or_empty none = empty_chat
or_empty (some c) = c

unfoldable pub add_chats : List Bytes → Assoc MemoryChat → Assoc MemoryChat
add_chats [] chats = chats
add_chats (key ∷ keys) chats = add_chats keys (insert key empty_chat chats)

unfoldable pub store_chat : Memory → Bytes → Chat → Assoc MemoryChat → Assoc MemoryChat
store_chat s key c chats =
    let current = or_empty (lookup key chats) in
    let quality = (display_for s.display c.id.value).quality in
    insert key
      (record current {
        chat = c;
        display_quality =
            if ltb current.display_quality quality then quality else current.display_quality;
      })
      chats

unfoldable pub store_chats : Memory → Assoc Chat → Assoc MemoryChat → Assoc MemoryChat
store_chats s [] chats = chats
store_chats s ((key, c) ∷ cs) chats = store_chats s cs (store_chat s key c chats)

-- The receipt-time mark is not stored.
unfoldable pub store_message : Message → Assoc MemoryChat → Assoc MemoryChat
store_message m chats =
    let current = or_empty (lookup (chat_key m) chats) in
    insert (chat_key m)
      (record current {
        messages = insert (message_key m) (with_notification_eligibility m false) current.messages;
      })
      chats

unfoldable pub store_messages : List Message → Assoc MemoryChat → Assoc MemoryChat
store_messages [] chats = chats
store_messages (m ∷ ms) chats = store_messages ms (store_message m chats)

unfoldable pub committed : Memory → Staging → Advance → Memory
committed s g a = record s {
  chats = store_messages g.staged (store_chats s a.chats (add_chats g.new_chats s.chats));
}

-- `writeBatch` with the rebuilt batch, where it has messages.
unfoldable pub write_messages :
    Memory → Bool → Bool → List Message → Result StoreError (List LiveEvent × Memory)
write_messages s realtime emit_live messages = do
  g ← stage_messages s no_staging messages
  check_room s g
  a ←
      advance_all s realtime emit_live g.staged g.inserted messages
        (record { chats = []; events = [] })
  events ← or_rejected (new_live_event_batch a.events)
  ok (events, committed s g a)

unfoldable pub write_rebuilt :
    Memory → Bool → WriteBatch → Result StoreError (List LiveEvent × Memory)
write_rebuilt s emit_live batch = elim batch.messages [
  | [] ↦ ok ([], s)
  | ◌∷◌ m ms ↦ write_messages s (batch.origin == write_realtime) emit_live (m ∷ ms)
]

-- An error leaves the store as it is. The count of a rebuilt batch is that of the batch.
unfoldable pub write_batch :
    Memory → Context → WriteBatch → Bool → Result StoreError (List LiveEvent × Memory)
write_batch s context batch emit_live = do
  check_context context
  rebuilt ← or_rejected (new_write_batch batch.origin batch.messages)
  write_rebuilt s emit_live rebuilt

unfoldable pub write_realtime_batch :
    Memory → Context → WriteBatch → Result StoreError (List LiveEvent × Memory)
write_realtime_batch s context batch =
    if batch.origin == write_realtime then write_batch s context batch true else err rejected
