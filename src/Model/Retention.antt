-- ===== src/Model/Retention.antt =====
-- Inputs and outcomes of the retention policy (internal/model/retention.go). The `int` fields that a
-- caller may set freely are integers; counts that the code computes are numbers.
use walite.Base.{
  ℕ, ◌==◌, ℤ, pos, ltb_ℤ, eqb_ℤ, Bool, true, false, ◌&&◌, ◌||◌, List, [], ◌∷◌, bytes_eq, String,
  ltb, leb, not, ok, err, ◌>>=◌, ◌>>◌, reject_if, length, Option, none, some, if◌then◌else◌,
}
use walite.Model.Error.{Validated, required, invalid_value, size_exceeded, new_validation_error}
use walite.Model.Time.{Time, zero_time, is_zero}
use walite.Model.Normalize.{max_retained_text_bytes}
use walite.Model.Identifier.{ChatId, MessageId, new_chat_id, new_message_id}
use walite.Model.Message.{Message}
use walite.Model.Anchor.{MessageAnchor, new_message_anchor}

abbrev pub max_retention_snapshot_summaries : ℕ
max_retention_snapshot_summaries = 551

abbrev pub max_prune_plan_deletes : ℕ
max_prune_plan_deletes = 551

pub record MessageSummary : Type 0 where
  pub chat_id : ChatId
  pub message_id : MessageId
  pub sent_at : Time
  pub from_me : Bool
  pub body_retained : Bool
  pub body_bytes : ℤ

abbrev pub zero_summary : MessageSummary
zero_summary = record {
  chat_id = record { value = [] };
  message_id = record { value = [] };
  sent_at = zero_time;
  from_me = false;
  body_retained = false;
  body_bytes = pos 0;
}

-- The checks of the body behind those of the identity.
abbrev pub negative : ℤ → Bool
negative n = ltb_ℤ n (pos 0)

unfoldable pub clone_message_summary : MessageSummary → Validated MessageSummary
clone_message_summary summary = do
  chat_id ← new_chat_id summary.chat_id.value
  message_id ← new_message_id summary.message_id.value
  reject_if (is_zero summary.sent_at) (new_validation_error required "sent_at" 0)
  reject_if (negative summary.body_bytes || ltb_ℤ (pos max_retained_text_bytes) summary.body_bytes)
      (new_validation_error invalid_value "body_bytes" max_retained_text_bytes)
  reject_if (not summary.body_retained && not (eqb_ℤ summary.body_bytes (pos 0)))
      (new_validation_error invalid_value "body_bytes" 0)
  ok (record summary { chat_id = chat_id; message_id = message_id })

-- The fields of `MessageSummaryInput` are those of `MessageSummary`.
abbrev pub new_message_summary_from_metadata : MessageSummary → Validated MessageSummary
new_message_summary_from_metadata input = clone_message_summary input

unfoldable pub summarize : Message → ChatId → MessageId → MessageSummary
summarize m chat_id message_id = if is_zero m.sent_at then zero_summary else record {
  chat_id = chat_id;
  message_id = message_id;
  sent_at = m.sent_at;
  from_me = m.from_me;
  body_retained = m.body_retained;
  body_bytes = if m.body_retained then pos (length m.text) else pos 0;
}

unfoldable pub new_message_summary : Message → MessageSummary
unfolding summarize
new_message_summary m = elim (new_chat_id m.chat_id.value) [
  | err e ↦ zero_summary
  | ok chat_id ↦ elim (new_message_id m.message_id.value) [
    | err e ↦ zero_summary
    | ok message_id ↦ summarize m chat_id message_id
  ]
]

pub record CacheUsage : Type 0 where
  pub estimated_bytes : ℤ
  pub chats : ℤ
  pub messages : ℤ
  pub bodies : ℤ
  pub anchors : ℤ
  pub constructed : Bool

unfoldable pub new_cache_usage : ℤ → ℤ → ℤ → ℤ → ℤ → Validated CacheUsage
new_cache_usage estimated_bytes chats messages bodies anchors = do
  reject_if (negative estimated_bytes) (new_validation_error invalid_value "estimated_bytes" 0)
  reject_if (negative chats) (new_validation_error invalid_value "chats" 0)
  reject_if (negative messages) (new_validation_error invalid_value "messages" 0)
  reject_if (negative bodies) (new_validation_error invalid_value "bodies" 0)
  reject_if (negative anchors) (new_validation_error invalid_value "anchors" 0)
  ok (record {
    estimated_bytes = estimated_bytes;
    chats = chats;
    messages = messages;
    bodies = bodies;
    anchors = anchors;
    constructed = true;
  })

unfoldable pub validate_cache_usage : CacheUsage → Validated (Unit {0})
validate_cache_usage u = do
  reject_if (not u.constructed) (new_validation_error required "cache_usage" 0)
  rebuilt ← new_cache_usage u.estimated_bytes u.chats u.messages u.bodies u.anchors
  ok tt

-- `RetentionAction` and `RetentionReason`, `uint8`s.
abbrev pub keep_body : ℕ
keep_body = 1

abbrev pub keep_metadata : ℕ
keep_metadata = 2

abbrev pub discard : ℕ
discard = 3

abbrev pub retention_eligible : ℕ
retention_eligible = 1

abbrev pub retention_too_old : ℕ
retention_too_old = 2

abbrev pub retention_message_count_limit : ℕ
retention_message_count_limit = 3

abbrev pub retention_cache_limit : ℕ
retention_cache_limit = 4

-- A `switch` over the constants 1 to `last`, with an error for 0 and another for the rest.
unfoldable pub validate_closed : ℕ → ℕ → String → Validated (Unit {0})
validate_closed last value field = do
  reject_if (value == 0) (new_validation_error required field 0)
  reject_if (not (leb value last)) (new_validation_error invalid_value field 0)

pub record RetentionDecision : Type 0 where
  pub action : ℕ
  pub reason : ℕ

unfoldable pub new_retention_decision : ℕ → ℕ → Validated RetentionDecision
unfolding validate_closed
new_retention_decision action reason = do
  validate_closed discard action "retention_action"
  validate_closed retention_cache_limit reason "retention_reason"
  ok (record { action = action; reason = reason })

pub record RetentionState : Type 0 where
  pub now : Time
  pub newer_bodies : ℤ
  pub usage : CacheUsage
  pub origin : ℕ

pub record RetentionSnapshot : Type 0 where
  pub chat_id : ChatId
  pub summaries : List MessageSummary
  pub anchor : Option MessageAnchor

-- The loop over the summaries.
unfoldable pub clone_summaries : ChatId → List MessageSummary → Validated (List MessageSummary)
clone_summaries chat_id [] = ok []
clone_summaries chat_id (summary ∷ summaries) = do
  owned ← clone_message_summary summary
  reject_if (not (bytes_eq owned.chat_id.value chat_id.value))
      (new_validation_error invalid_value "summary_chat_id" 0)
  rest ← clone_summaries chat_id summaries
  ok (owned ∷ rest)

-- An optional anchor is copied and must belong to the chat; the error names the field.
unfoldable pub clone_anchor :
    ChatId → String → Option MessageAnchor → Validated (Option MessageAnchor)
clone_anchor chat_id field none = ok none
clone_anchor chat_id field (some a) = do
  owned ← new_message_anchor a.chat_id a.message_id a.sent_at a.from_me
  reject_if (not (bytes_eq owned.chat_id.value chat_id.value))
      (new_validation_error invalid_value field 0)
  ok (some owned)

unfoldable pub new_retention_snapshot :
    ChatId → List MessageSummary → Option MessageAnchor → Validated RetentionSnapshot
new_retention_snapshot chat_id summaries anchor = do
  owned_chat_id ← new_chat_id chat_id.value
  reject_if (ltb max_retention_snapshot_summaries (length summaries)) (
      new_validation_error size_exceeded "retention_snapshot_summaries"
        max_retention_snapshot_summaries)
  owned_summaries ← clone_summaries owned_chat_id summaries
  owned_anchor ← clone_anchor owned_chat_id "anchor_chat_id" anchor
  ok (record { chat_id = owned_chat_id; summaries = owned_summaries; anchor = owned_anchor })

pub record PrunePlan : Type 0 where
  pub chat_id : ChatId
  pub delete_ids : List MessageId
  pub replacement : Option MessageAnchor

unfoldable pub clone_ids : List MessageId → Validated (List MessageId)
clone_ids [] = ok []
clone_ids (id ∷ ids) = do owned ← new_message_id id.value; rest ← clone_ids ids; ok (owned ∷ rest)

unfoldable pub new_prune_plan : ChatId → List MessageId → Option MessageAnchor → Validated PrunePlan
new_prune_plan chat_id delete_ids replacement = do
  owned_chat_id ← new_chat_id chat_id.value
  reject_if (ltb max_prune_plan_deletes (length delete_ids))
      (new_validation_error size_exceeded "prune_plan_deletes" max_prune_plan_deletes)
  owned_ids ← clone_ids delete_ids
  owned_anchor ← clone_anchor owned_chat_id "replacement_anchor_chat_id" replacement
  ok (record { chat_id = owned_chat_id; delete_ids = owned_ids; replacement = owned_anchor })

pub record PruneResult : Type 0 where
  pub deleted_rows : ℤ
  pub removed_bodies : ℤ
  pub anchor_replaced : Bool

unfoldable pub new_prune_result : ℤ → ℤ → Bool → Validated PruneResult
new_prune_result deleted_rows removed_bodies anchor_replaced = do
  reject_if (negative deleted_rows) (new_validation_error invalid_value "deleted_rows" 0)
  reject_if (negative removed_bodies) (new_validation_error invalid_value "removed_bodies" 0)
  ok (record {
    deleted_rows = deleted_rows;
    removed_bodies = removed_bodies;
    anchor_replaced = anchor_replaced;
  })
