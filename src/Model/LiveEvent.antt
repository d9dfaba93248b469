-- ===== src/Model/LiveEvent.antt =====
-- Events of committed messages (internal/model/live_event.go).
use walite.Base.{
  ℕ, ◌==◌, pos, not, List, [], ◌∷◌, ltb, ok, err, ◌>>=◌, ◌>>◌, reject_if, length, none, some,
  if◌then◌else◌,
}
use walite.Model.Error.{Validated, required, invalid_value, size_exceeded, new_validation_error}
use walite.Model.Time.{Time, is_zero, before}
use walite.Model.Message.{Message, checked_byte_sum, max_normalized_event_bytes}
use walite.Model.Batch.{clone_normalized_message, max_write_batch_messages}

abbrev pub max_live_events_per_commit : ℕ
max_live_events_per_commit = max_write_batch_messages

abbrev pub live_event_envelope_bytes : ℕ
live_event_envelope_bytes = 128

-- `LiveEventKind`, a `uint8`.
abbrev pub live_message_committed : ℕ
live_message_committed = 1

pub record LiveEvent : Type 0 where
  pub kind : ℕ
  pub message : Message
  pub unread_count : ℕ
  pub activity_time : Time
  pub byte_size : ℕ

-- The charge of the event, within its limit.
unfoldable pub live_event_size : ℕ → Validated ℕ
live_event_size message_bytes =
    elim (checked_byte_sum (pos live_event_envelope_bytes ∷ pos message_bytes ∷ [])) [
      | none ↦ err (new_validation_error size_exceeded "live_event" max_normalized_event_bytes)
      | some n ↦
          if ltb max_normalized_event_bytes n
          then err (new_validation_error size_exceeded "live_event" max_normalized_event_bytes)
          else ok n
    ]

unfoldable pub new_live_message_committed : Message → ℕ → Time → Validated LiveEvent
new_live_message_committed message unread_count activity_time = do
  owned ← clone_normalized_message message
  reject_if (is_zero activity_time) (new_validation_error required "activity_time" 0)
  reject_if (before activity_time owned.0.sent_at)
      (new_validation_error invalid_value "activity_time" 0)
  byte_size ← live_event_size owned.1
  ok (record {
    kind = live_message_committed;
    message = owned.0;
    unread_count = unread_count;
    activity_time = activity_time;
    byte_size = byte_size;
  })

-- The loop of `NewLiveEventBatch`.
unfoldable pub own_events : List LiveEvent → Validated (List LiveEvent)
own_events [] = ok []
own_events (event ∷ events) = do
  reject_if (not (event.kind == live_message_committed))
      (new_validation_error invalid_value "live_event_kind" 0)
  owned ← new_live_message_committed event.message event.unread_count event.activity_time
  rest ← own_events events
  ok (owned ∷ rest)

-- `LiveEventBatch`, whose array holds `count` events.
unfoldable pub new_live_event_batch : List LiveEvent → Validated (List LiveEvent)
new_live_event_batch events = do
  reject_if (ltb max_live_events_per_commit (length events))
      (new_validation_error size_exceeded "live_event_batch" max_live_events_per_commit)
  own_events events
