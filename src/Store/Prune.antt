-- ===== src/Store/Prune.antt =====
-- What the retention policy reads from the store and does to it (`RetentionSnapshot` and `ApplyPrune`
-- of internal/store/memory.go).
pub mod Apply
pub mod Snapshot
pub mod Delete
pub mod Count
pub mod Remain
use walite.Base.{
  ℕ, suc, ◌+◌, pos, Bool, true, false, ◌&&◌, ◌||◌, not, List, [], ◌∷◌, map, Bytes, bytes_eq, Result,
  ok, err, ◌>>=◌, ◌>>◌, Option, none, some, if◌then◌else◌, sort_by,
}
use walite.Assoc.{Assoc, lookup, erase}
use walite.Model.Time.{equal}
use walite.Model.Identifier.{ChatId, MessageId, new_chat_id}
use walite.Model.Message.{Message}
use walite.Model.Anchor.{MessageAnchor}
use walite.Model.Retention.{
  MessageSummary, RetentionSnapshot, PrunePlan, PruneResult, new_message_summary,
  new_retention_snapshot, new_prune_plan, new_prune_result,
}
use walite.Store.Memory.{
  Memory, MemoryChat, StoreError, Context, check_context, or_rejected, or_invalid, or_return,
  put_chat,
}
use walite.Store.Page.{newer, all_messages}

unfoldable pub snapshot_of : ChatId → Option MemoryChat → Result StoreError RetentionSnapshot
snapshot_of id none = or_invalid (new_retention_snapshot id [] none)
snapshot_of id (some c) =
    or_invalid (
      new_retention_snapshot id (map new_message_summary (sort_by newer (all_messages c))) c.anchor)

unfoldable pub retention_snapshot : Memory → Context → ChatId → Result StoreError RetentionSnapshot
retention_snapshot s context id = do
  check_context context
  owned ← or_rejected (new_chat_id id.value)
  snapshot_of owned (lookup owned.value s.chats)

abbrev pub contains_id : List Bytes → Bytes → Bool
contains_id [] key = false
contains_id (k ∷ ks) key = bytes_eq k key || contains_id ks key

-- The loop over the identifiers to delete.
pub record Deletion : Type 0 where
  pub messages : Assoc Message
  pub deleted : ℕ
  pub bodies : ℕ
  pub seen : List Bytes

abbrev pub delete_found : Deletion → Bytes → Option Message → Deletion
delete_found d key none = record d { seen = key ∷ d.seen }
delete_found d key (some m) = record {
  messages = erase key d.messages;
  deleted = d.deleted + 1;
  bodies = if m.body_retained then d.bodies + 1 else d.bodies;
  seen = key ∷ d.seen;
}

unfoldable pub delete_step : Deletion → Bytes → Deletion
delete_step d key = if contains_id d.seen key then d else delete_found d key (lookup key d.messages)

unfoldable pub delete_all : Deletion → List MessageId → Deletion
delete_all d [] = d
delete_all d (id ∷ ids) = delete_all (delete_step d id.value) ids

unfoldable pub same_anchor : MessageAnchor → MessageAnchor → Bool
same_anchor a b =
    bytes_eq a.chat_id.value b.chat_id.value
    && (bytes_eq a.message_id.value b.message_id.value
        && (equal a.sent_at b.sent_at && (if a.from_me then b.from_me else not b.from_me)))

abbrev pub anchor_changes : Option MessageAnchor → Option MessageAnchor → Bool
anchor_changes existing none = false
anchor_changes none (some a) = true
anchor_changes (some b) (some a) = not (same_anchor b a)

abbrev pub new_anchor : Option MessageAnchor → Option MessageAnchor → Option MessageAnchor
new_anchor existing none = existing
new_anchor existing (some a) = some a

unfoldable pub apply_at :
    Memory → PrunePlan → Option MemoryChat → Memory × Result StoreError PruneResult
apply_at s plan none = (s, or_invalid (new_prune_result (pos 0) (pos 0) false))
apply_at s plan (some c) =
    let d =
      delete_all (record { messages = c.messages; deleted = 0; bodies = 0; seen = [] })
        plan.delete_ids in
    (
      put_chat s plan.chat_id.value
          (record c { messages = d.messages; anchor = new_anchor c.anchor plan.replacement }),
      or_invalid (
          new_prune_result (pos d.deleted) (pos d.bodies)
            (anchor_changes c.anchor plan.replacement)),
    )

unfoldable pub apply_prune : Memory → Context → PrunePlan → Memory × Result StoreError PruneResult
unfolding or_return
apply_prune s context plan =
    or_return s
      (check_context context
        >> or_rejected (new_prune_plan plan.chat_id plan.delete_ids plan.replacement))
      (λ rebuilt. apply_at s rebuilt (lookup rebuilt.chat_id.value s.chats))
