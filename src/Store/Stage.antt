-- ===== src/Store/Stage.antt =====
-- The first half of `writeBatch` of internal/store/memory.go: each message of a batch is staged, merged
-- with the one that is there, and the capacities are tested.
pub mod Places
pub mod Invariant
pub mod Loop
use walite.Base.{
  ℕ, zero, suc, ◌+◌, ◌==◌, Bool, true, false, ◌&&◌, ◌||◌, not, List, [], ◌∷◌, ◌++◌, Bytes, bytes_eq,
  ltb, Result, ok, err, ◌>>=◌, ◌>>◌, reject_if, length, Option, none, some, if◌then◌else◌, pos,
}
use walite.Assoc.{Assoc, lookup, insert}
use walite.Model.Error.{Validated}
use walite.Model.Time.{zero_time}
use walite.Model.Identifier.{ChatId}
use walite.Model.Message.{Message, with_notification_eligibility}
use walite.Model.Anchor.{write_realtime}
use walite.Model.Chat.{Chat, ChatInput, new_chat}
use walite.Model.Batch.{WriteBatch, new_write_batch}
use walite.Model.Display.{with_display_metadata}
use walite.Model.LiveEvent.{LiveEvent, new_live_message_committed, new_live_event_batch}
use walite.Model.Retention.{max_retention_snapshot_summaries}
use walite.Store.Memory.{
  Memory, MemoryChat, StoreError, Context, rejected, capacity, check_context, or_rejected, no_chat,
  advance_chat_for_message, display_for,
}
use walite.Store.Merge.{conflicts, merge_message}

-- The variables of the first loop. Of the maps of maps, `new_ids` holds pairs of keys and `staged`
-- messages that carry theirs; `inserted` is the array up to the index.
pub record Staging : Type 0 where
  pub new_chats : List Bytes
  pub new_ids : List (Bytes × Bytes)
  pub staged : List Message
  pub inserted : List Bool

abbrev pub no_staging : Staging
no_staging = record { new_chats = []; new_ids = []; staged = []; inserted = [] }

abbrev pub chat_key : Message → Bytes
chat_key m = m.chat_id.value

abbrev pub message_key : Message → Bytes
message_key m = m.message_id.value

abbrev pub has_keys : Bytes → Bytes → Message → Bool
has_keys chat id m = bytes_eq (chat_key m) chat && bytes_eq (message_key m) id

unfoldable pub find_staged : Bytes → Bytes → List Message → Option Message
find_staged chat id [] = none
find_staged chat id (m ∷ ms) = if has_keys chat id m then some m else find_staged chat id ms

-- A merged message keeps its keys, so that it takes the place of the one that it was merged with.
unfoldable pub stage : Message → List Message → List Message
stage m [] = m ∷ []
stage m (n ∷ ms) = if has_keys (chat_key m) (message_key m) n then m ∷ ms else n ∷ stage m ms

abbrev pub find_stored : Option MemoryChat → Bytes → Option Message
find_stored none id = none
find_stored (some c) id = lookup id c.messages

abbrev pub or_stored : Option Message → Option Message → Option Message
or_stored (some m) stored = some m
or_stored none stored = stored

unfoldable pub find_prior : Memory → Staging → Message → Option Message
find_prior s g m =
    or_stored (find_staged (chat_key m) (message_key m) g.staged)
      (find_stored (lookup (chat_key m) s.chats) (message_key m))

abbrev pub contains_key : Bytes → List Bytes → Bool
contains_key k [] = false
contains_key k (j ∷ ks) = bytes_eq j k || contains_key k ks

abbrev pub add_key : Bytes → List Bytes → List Bytes
add_key k ks = if contains_key k ks then ks else k ∷ ks

abbrev pub contains_pair : Bytes → Bytes → List (Bytes × Bytes) → Bool
contains_pair k i [] = false
contains_pair k i ((j, h) ∷ ps) = (bytes_eq j k && bytes_eq h i) || contains_pair k i ps

abbrev pub add_pair : Bytes → Bytes → List (Bytes × Bytes) → List (Bytes × Bytes)
add_pair k i ps = if contains_pair k i ps then ps else (k, i) ∷ ps

abbrev pub add_if_new : Bytes → Option MemoryChat → List Bytes → List Bytes
add_if_new k none ks = add_key k ks
add_if_new k (some c) ks = ks

-- The part of a round that depends on what is already there.
unfoldable pub stage_found : Staging → Message → Option Message → Result StoreError Staging
stage_found g m none = ok (record g {
  new_ids = add_pair (chat_key m) (message_key m) g.new_ids;
  staged = stage m g.staged;
  inserted = g.inserted ++ (true ∷ []);
})
stage_found g m (some prior) =
    if conflicts prior m
    then err rejected
    else ok (record g {
      staged = stage (merge_message prior m) g.staged;
      inserted = g.inserted ++ (false ∷ []);
    })

unfoldable pub stage_message : Memory → Staging → Message → Result StoreError Staging
stage_message s g m =
    stage_found
      (record g { new_chats = add_if_new (chat_key m) (lookup (chat_key m) s.chats) g.new_chats }) m
      (find_prior s g m)

unfoldable pub stage_messages : Memory → Staging → List Message → Result StoreError Staging
stage_messages s g [] = ok g
stage_messages s g (m ∷ ms) = do next ← stage_message s g m; stage_messages s next ms

-- How many of the new identifiers are of the chat.
unfoldable pub new_count : Bytes → List (Bytes × Bytes) → ℕ
new_count k [] = 0
new_count k ((j, i) ∷ ps) = (if bytes_eq j k then 1 else 0) + new_count k ps

abbrev pub stored_count : Option MemoryChat → ℕ
stored_count none = 0
stored_count (some c) = length c.messages

-- The loop over `newIDs`, which visits a chat once for each of its new identifiers.
unfoldable pub has_room : Memory → List (Bytes × Bytes) → List (Bytes × Bytes) → Bool
has_room s all [] = true
has_room s all ((k, i) ∷ ps) =
    not (ltb max_retention_snapshot_summaries (stored_count (lookup k s.chats) + new_count k all))
    && has_room s all ps

unfoldable pub check_room : Memory → Staging → Result StoreError (Unit {0})
check_room s g = do
  reject_if (ltb s.max_chats (length s.chats + length g.new_chats)) capacity
  reject_if (not (has_room s g.new_ids g.new_ids)) capacity
