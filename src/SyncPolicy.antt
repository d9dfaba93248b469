-- ===== src/SyncPolicy.antt =====
-- The retention policy (internal/syncpolicy/policy.go).
pub mod Order
pub mod Valid
pub mod Loop
pub mod Oldest
pub mod Prune
pub mod Guarantee
pub mod Anchors
pub mod Decide
pub mod Create
use walite.Base.{
  ℕ, suc, ◌+◌, ◌==◌, ℤ, pos, negsuc, ltb_ℤ, leb_ℤ, eqb_ℤ, ◌-ℤ◌, Bool, true, false, ◌&&◌, ◌||◌, List,
  [], ◌∷◌, ◌++◌, Bytes, bytes_eq, bytes_lt, not, Result, ok, err, ◌>>=◌, ◌>>◌, reject_if, length,
  Option, none, some, if◌then◌else◌, sort_by, ltb,
}
use walite.Config.{Retention, Checked, validate_retention}
use walite.Model.Error.{Validated, required, invalid_value, size_exceeded, new_validation_error}
use walite.Model.Time.{Time, Duration, before, after, equal, is_zero}
use walite.Model.Normalize.{max_retained_text_bytes}
use walite.Model.Identifier.{ChatId, MessageId, new_chat_id, new_message_id}
use walite.Model.Message.{Message}
use walite.Model.Anchor.{MessageAnchor, new_message_anchor, write_realtime, write_history}
use walite.Model.Retention.{
  MessageSummary, RetentionState, RetentionSnapshot, RetentionDecision, PrunePlan, negative,
  validate_cache_usage, new_retention_decision, new_prune_plan, keep_body, keep_metadata,
  retention_eligible, retention_too_old, retention_message_count_limit, retention_cache_limit,
  max_retention_snapshot_summaries,
}

-- `Policy`. The pointer is never nil here: a nil policy is refused as one with zero limits is.
pub record Policy : Type 0 where
  pub messages_per_chat : ℤ
  pub max_age : Duration
  pub cache_bytes : ℤ

-- `New`
unfoldable pub new_policy : Retention → Checked Policy
new_policy retention = do
  validate_retention retention
  ok (record {
    messages_per_chat = retention.messages_per_chat;
    max_age = retention.max_age;
    cache_bytes = retention.cache_bytes;
  })

unfoldable pub validate_policy : Policy → Validated (Unit {0})
validate_policy p =
    reject_if
      (leb_ℤ p.messages_per_chat (pos 0)
        || (leb_ℤ p.max_age (pos 0) || leb_ℤ p.cache_bytes (pos 0)))
      (new_validation_error required "retention_policy" 0)

unfoldable pub validate_message_identity : Message → Validated (Unit {0})
validate_message_identity m = do
  chat_id ← new_chat_id m.chat_id.value
  message_id ← new_message_id m.message_id.value
  reject_if (is_zero m.sent_at) (new_validation_error required "sent_at" 0)

-- The `switch` on the origin, whose case 0 stands behind those of the two constants.
unfoldable pub validate_state : RetentionState → Validated (Unit {0})
validate_state s = do
  reject_if (is_zero s.now) (new_validation_error required "retention_now" 0)
  reject_if (negative s.newer_bodies) (new_validation_error invalid_value "newer_bodies" 0)
  validate_cache_usage s.usage
  reject_if (s.origin == 0) (new_validation_error required "write_origin" 0)
  reject_if (not (s.origin == write_realtime || s.origin == write_history))
      (new_validation_error invalid_value "write_origin" 0)

-- The body of the loop of `validateSnapshot`.
unfoldable pub validate_summary : ChatId → MessageSummary → Validated (Unit {0})
validate_summary chat_id summary = do
  summary_chat_id ← new_chat_id summary.chat_id.value
  reject_if (not (bytes_eq summary.chat_id.value chat_id.value))
      (new_validation_error invalid_value "summary_chat_id" 0)
  message_id ← new_message_id summary.message_id.value
  reject_if (is_zero summary.sent_at) (new_validation_error required "sent_at" 0)
  reject_if
      (negative summary.body_bytes
        || (ltb_ℤ (pos max_retained_text_bytes) summary.body_bytes
            || (not summary.body_retained && not (eqb_ℤ summary.body_bytes (pos 0)))))
      (new_validation_error invalid_value "body_bytes" max_retained_text_bytes)

unfoldable pub validate_summaries : ChatId → List MessageSummary → Validated (Unit {0})
validate_summaries chat_id [] = ok tt
validate_summaries chat_id (summary ∷ summaries) = do
  validate_summary chat_id summary
  validate_summaries chat_id summaries

unfoldable pub validate_anchor : ChatId → Option MessageAnchor → Validated (Unit {0})
validate_anchor chat_id none = ok tt
validate_anchor chat_id (some a) = do
  owned ← new_message_anchor a.chat_id a.message_id a.sent_at a.from_me
  reject_if (not (bytes_eq owned.chat_id.value chat_id.value))
      (new_validation_error invalid_value "anchor_chat_id" 0)

unfoldable pub validate_snapshot : RetentionSnapshot → Validated (Unit {0})
validate_snapshot snapshot = do
  chat_id ← new_chat_id snapshot.chat_id.value
  reject_if (ltb max_retention_snapshot_summaries (length snapshot.summaries)) (
      new_validation_error size_exceeded "retention_snapshot_summaries"
        max_retention_snapshot_summaries)
  validate_summaries chat_id snapshot.summaries
  validate_anchor chat_id snapshot.anchor

-- `state.Now.Add(-policy.maxAge)`
abbrev pub cutoff : Policy → RetentionState → Time
cutoff p s = s.now -ℤ p.max_age

-- The outcome of `Decide` behind its validations.
unfoldable pub choose : Policy → Message → RetentionState → Validated RetentionDecision
choose p m s =
    if before m.sent_at (cutoff p s)
    then new_retention_decision keep_metadata retention_too_old
    else if leb_ℤ p.messages_per_chat s.newer_bodies
    then new_retention_decision keep_metadata retention_message_count_limit
    else if s.origin == write_history && leb_ℤ p.cache_bytes s.usage.estimated_bytes
    then new_retention_decision keep_metadata retention_cache_limit
    else new_retention_decision keep_body retention_eligible

unfoldable pub decide : Policy → Message → RetentionState → Validated RetentionDecision
decide p m s = do validate_message_identity m; validate_policy p; validate_state s; choose p m s

unfoldable pub summary_newer : MessageSummary → MessageSummary → Bool
summary_newer l r =
    if equal l.sent_at r.sent_at
    then bytes_lt r.message_id.value l.message_id.value
    else after l.sent_at r.sent_at

unfoldable pub summary_older : MessageSummary → MessageSummary → Bool
summary_older l r =
    if equal l.sent_at r.sent_at
    then bytes_lt l.message_id.value r.message_id.value
    else before l.sent_at r.sent_at

unfoldable pub anchor_older : MessageAnchor → MessageAnchor → Bool
anchor_older l r =
    if equal l.sent_at r.sent_at
    then bytes_lt l.message_id.value r.message_id.value
    else before l.sent_at r.sent_at

-- The variables of the loop of `PlanPrune`; `none` stands for `hasDeleted == false`.
pub record Sweep : Type 0 where
  pub kept_bodies : ℕ
  pub delete_ids : List MessageId
  pub oldest_deleted : Option MessageSummary

-- `!hasDeleted || summaryOlder(summary, oldestDeleted)`
unfoldable pub older_deleted : MessageSummary → Option MessageSummary → Option MessageSummary
older_deleted summary none = some summary
older_deleted summary (some oldest) =
    if summary_older summary oldest then some summary else some oldest

abbrev pub is_stale : Time → MessageSummary → Bool
is_stale limit summary = not summary.body_retained || before summary.sent_at limit

unfoldable pub sweep_step : Policy → Time → Sweep → MessageSummary → Sweep
sweep_step p limit s summary =
    if is_stale limit summary || not (ltb_ℤ (pos s.kept_bodies) p.messages_per_chat)
    then record s {
      delete_ids = s.delete_ids ++ (summary.message_id ∷ []);
      oldest_deleted = older_deleted summary s.oldest_deleted;
    }
    else record s { kept_bodies = s.kept_bodies + 1 }

unfoldable pub sweep : Policy → Time → Sweep → List MessageSummary → Sweep
sweep p limit s [] = s
sweep p limit s (summary ∷ work) = sweep p limit (sweep_step p limit s summary) work

abbrev pub sweep_start : Sweep
sweep_start = record { kept_bodies = 0; delete_ids = []; oldest_deleted = none }

-- `!hasExisting || anchorOlder(candidate, existing)`
unfoldable pub replaces : MessageAnchor → Option MessageAnchor → Option MessageAnchor
replaces candidate none = some candidate
replaces candidate (some existing) =
    if anchor_older candidate existing then some candidate else none

unfoldable pub replacement_for :
    Option MessageSummary → Option MessageAnchor → Validated (Option MessageAnchor)
replacement_for none existing = ok none
replacement_for (some d) existing = do
  candidate ← new_message_anchor d.chat_id d.message_id d.sent_at d.from_me
  ok (replaces candidate existing)

-- The snapshot's summaries are copied and sorted newest first.
unfoldable pub plan_prune : Policy → RetentionSnapshot → RetentionState → Validated PrunePlan
plan_prune p snapshot s = do
  validate_policy p
  validate_state s
  validate_snapshot snapshot
  let swept = sweep p (cutoff p s) sweep_start (sort_by summary_newer snapshot.summaries)
  replacement ← replacement_for swept.oldest_deleted snapshot.anchor
  new_prune_plan snapshot.chat_id swept.delete_ids replacement
