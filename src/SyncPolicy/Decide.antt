-- ===== src/SyncPolicy/Decide.antt =====
-- When `Decide` keeps a body.
use walite.Base.{◌≡◌, ◌↔◌, ◌≢◌, ◌⊎◌, ◌<ℤ◌, ◌==◌, false, ok, arith, leb_ℤ, ◌&&◌, if◌then◌else◌}
use walite.Model.Time.{before}
use walite.Model.Message.{Message}
use walite.Model.Anchor.{write_realtime, write_history}
use walite.Model.Retention.{
  RetentionState, RetentionDecision, new_retention_decision, keep_body, keep_metadata,
  retention_cache_limit, retention_too_old, retention_message_count_limit, retention_eligible,
}
use walite.SyncPolicy.{
  Policy, cutoff, decide, choose, validate_policy, validate_state, validate_message_identity,
}

-- Young enough, few enough newer bodies, and either a realtime write or room in the cache.
abbrev pub Eligible : Policy → Message → RetentionState → Type 0
Eligible p m s =
    (before m.sent_at (cutoff p s) ≡ false)
    × (s.newer_bodies <ℤ p.messages_per_chat)
    × ((s.origin ≡ write_realtime) ⊎ (s.usage.estimated_bytes <ℤ p.cache_bytes))

validate_state-origin :
    (s : RetentionState)
    → validate_state s ≡ ok tt
    → (s.origin ≡ write_realtime) ⊎ (s.origin ≡ write_history)
unfolding validate_state
validate_state-origin s h = ground arith

-- The decision of each branch.
unfoldable verdict : Policy → Message → RetentionState → RetentionDecision
verdict p m s =
    if before m.sent_at (cutoff p s)
    then record { action = keep_metadata; reason = retention_too_old }
    else if leb_ℤ p.messages_per_chat s.newer_bodies
    then record { action = keep_metadata; reason = retention_message_count_limit }
    else if s.origin == write_history && leb_ℤ p.cache_bytes s.usage.estimated_bytes
    then record { action = keep_metadata; reason = retention_cache_limit }
    else record { action = keep_body; reason = retention_eligible }

choose-verdict : (p : Policy) (m : Message) (s : RetentionState) → choose p m s ≡ ok (verdict p m s)
unfolding choose verdict new_retention_decision
choose-verdict p m s = ground arith

verdict-Eligible :
    (p : Policy) (m : Message) (s : RetentionState)
    → (s.origin ≡ write_realtime) ⊎ (s.origin ≡ write_history)
    → ((verdict p m s).action ≡ keep_body) ↔ Eligible p m s
unfolding verdict
verdict-Eligible p m s o = (λ h. (ground arith, ground arith, ground arith), λ h. ground arith)

-- For a valid message identity, policy and state a decision is made, without an error: to keep the
-- body exactly if it is eligible, else to keep the metadata alone; it never discards the message,
-- and it gives the cache limit as the reason only for a history write.
pub decide-Eligible :
    (p : Policy) (m : Message) (s : RetentionState)
    → validate_message_identity m ≡ ok tt
    → validate_policy p ≡ ok tt
    → validate_state s ≡ ok tt
    → (d : RetentionDecision) × (decide p m s ≡ ok d)
      × ((d.action ≡ keep_body) ↔ Eligible p m s)
      × ((d.action ≡ keep_body) ⊎ (d.action ≡ keep_metadata))
      × ((d.reason ≢ retention_cache_limit) ⊎ (s.origin ≡ write_history))
unfolding decide
decide-Eligible p m s hm hp hs =
    let made : decide p m s ≡ ok (verdict p m s) = rw (hm, hp, hs) (choose-verdict p m s) in
    (
      verdict p m s,
      made,
      verdict-Eligible p m s (validate_state-origin s hs),
      unfold verdict in ground arith,
      unfold verdict in ground arith,
    )
