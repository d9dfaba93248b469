-- ===== src/Service/Writer/Prune.antt =====
-- What a round of the writer's last loop does to its chat.
use walite.Base.{
  ℕ, ◌≤◌, ◌≡◌, pos, ◌≤ℤ◌, true, false, Bytes, bytes_eq, ltb, length, length-map, length-sort_by,
  some, ok, arith, if◌then◌else◌, sort_by,
}
use walite.Assoc.{lookup, All-lookup}
use walite.Model.Time.{is_zero}
use walite.Model.Identifier.{ChatId}
use walite.Model.Message.{Message}
use walite.Model.Anchor.{validate_write_origin}
use walite.Model.Retention.{
  CacheUsage, RetentionState, validate_cache_usage, max_retention_snapshot_summaries,
}
use walite.SyncPolicy.{Policy, validate_policy, validate_state}
use walite.SyncPolicy.Valid.{validate_policy-pos, validate_snapshot-IsSnapshot}
use walite.SyncPolicy.Prune.{expected, plan_prune-expected, plan_made}
use walite.Store.Memory.{Memory, MemoryChat, running, or_return, check_context}
use walite.Store.Memory.Invariant.{IsMemory, IsChatEntry}
use walite.Store.Page.{newer, all_messages}
use walite.Store.Usage.Counts.{new_cache_usage-pos}
use walite.Store.Usage.{usage, tally}
use walite.Store.Prune.Snapshot.{retention_snapshot-valid, snapshot_from, summary_of}
use walite.Store.Prune.Apply.{after_plan, apply_prune-after}
use walite.Store.Prune.Remain.{length-after_plan}
use walite.Service.Writer.{Round, survey, plan_for, prune_chat}

abbrev counted : Memory → CacheUsage
counted s = record {
  estimated_bytes = pos (tally s).bytes;
  chats = pos (length s.chats);
  messages = pos (tally s).messages;
  bodies = pos (tally s).bodies;
  anchors = pos (tally s).anchors;
  constructed = true;
}

usage-counted : (s : Memory) → usage s running ≡ ok (counted s)
unfolding usage check_context
usage-counted s = rw (
    new_cache_usage-pos (tally s).bytes (length s.chats) (tally s).messages (tally s).bodies
      (tally s).anchors)

-- A round that no context ends, and the clock is set.
pub record Runs (r : Round) : Type 0 where
  pub at_start : r.at_start ≡ running
  pub at_snapshot : r.at_snapshot ≡ running
  pub at_usage : r.at_usage ≡ running
  pub at_prune : r.at_prune ≡ running
  pub now : is_zero r.now ≡ false

abbrev pub state_at : Round → ℕ → Memory → RetentionState
state_at r origin s = record {
  now = r.now;
  newer_bodies = pos 0;
  usage = counted s;
  origin = origin;
}

state_at-valid :
    (r : Round) (origin : ℕ) (s : Memory)
    → is_zero r.now ≡ false
    → validate_write_origin origin ≡ ok tt
    → validate_state (state_at r origin s) ≡ ok tt
unfolding validate_state validate_cache_usage validate_write_origin
state_at-valid r origin s now origin_valid =
    rw
      (
        now,
        new_cache_usage-pos (tally s).bytes (length s.chats) (tally s).messages (tally s).bodies
            (tally s).anchors,
      )
      origin_valid

module _ (p : Policy) (limit : ℕ) (r : Round) (origin : ℕ) (s : Memory) (id : ChatId)
    {c : MemoryChat} (v : IsMemory s) (there : lookup id.value s.chats ≡ some c)
    (policy_valid : validate_policy p ≡ ok tt) (runs : Runs r)
    (origin_valid : validate_write_origin origin ≡ ok tt)
    (enough : max_retention_snapshot_summaries ≤ limit) where
  survey-counted : survey s limit r id ≡ ok (snapshot_from id c, counted s)
  unfolding survey check_context
  survey-counted =
      let e = All-lookup IsChatEntry id.value s.chats v.entries there in
      let few : ltb limit (length (snapshot_from id c).summaries) ≡ false = ground (
        arith,
        e.bounded,
        enough,
        length-map summary_of (sort_by newer (all_messages c)),
        length-sort_by newer (all_messages c),
        length-map (λ (f : Bytes × Message). f.1) c.messages,
      ) in
      rw (
        runs.at_start,
        runs.at_snapshot,
        (retention_snapshot-valid s id v there).0,
        few,
        runs.at_usage,
        usage-counted s,
      )

  plan_for-expected :
      plan_for p limit r origin s id ≡ ok (expected p (snapshot_from id c) (state_at r origin s))
  unfolding plan_for
  plan_for-expected = rw (
    survey-counted,
    plan_prune-expected p (snapshot_from id c) (state_at r origin s) policy_valid
        (state_at-valid r origin s runs.now origin_valid) (retention_snapshot-valid s id v there).1,
  )

  -- For a chat of a valid store, a valid policy and origin, a round whose contexts run and whose
  -- clock is set, and a snapshot limit of at least 551, pruning a chat succeeds, leaves it with
  -- at most `messages_per_chat` messages, and leaves all other chats as they were.
  pub prune_chat-bounded :
      (after : MemoryChat) × ((prune_chat p limit r origin s id).1 ≡ ok tt)
      × (pos (length after.messages) ≤ℤ p.messages_per_chat)
      × ((k : Bytes)
          → lookup k (prune_chat p limit r origin s id).0.chats
            ≡ (if bytes_eq id.value k then some after else lookup k s.chats))
  unfolding prune_chat or_return
  prune_chat-bounded =
      let plan = expected p (snapshot_from id c) (state_at r origin s) in
      let e = All-lookup IsChatEntry id.value s.chats v.entries there in
      let made = plan_made p (snapshot_from id c) (state_at r origin s) (
        validate_snapshot-IsSnapshot (snapshot_from id c)
          (retention_snapshot-valid s id v there).1) in
      let done = apply_prune-after s plan v made there in
      let (rows, bodies, result, kept, left) = done.result in
      (
        after_plan c plan,
        rw (plan_for-expected, runs.at_prune, result),
        rw (validate_policy-pos p policy_valid)
            (omega (arith, length-after_plan p (state_at r origin s) id c e)),
        λ k. rw (plan_for-expected, runs.at_prune) (done.chats k),
      )
