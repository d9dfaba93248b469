-- ===== src/SyncPolicy/Anchors.antt =====
-- The paging anchor that a plan leaves in force, and plans that have nothing to do.
use walite.Base.{
  ℕ, zero, suc, ◌≤◌, ◌≡◌, refl, ◌∙◌, sym, ap, pos, pos_part, ◌≤ℤ◌, true, false, List, [], ◌∷◌,
  length, All, All-imp, All-sort_by, length-sort_by, Option, none, some, ok, arith, sort_by,
  Bool-cases, inl, inr,
}
use walite.Model.Anchor.{MessageAnchor}
use walite.Model.Order.{key_before, key_before_chain}
use walite.Model.Time.{Time}
use walite.Model.Retention.{MessageSummary, RetentionSnapshot, RetentionState, PrunePlan}
use walite.SyncPolicy.{
  Policy, cutoff, plan_prune, validate_policy, validate_state, validate_snapshot, summary_newer,
  is_stale, replaces, anchor_older,
}
use walite.SyncPolicy.Valid.{IsSummary, validate_policy-pos, validate_snapshot-IsSnapshot}
use walite.SyncPolicy.Loop.{dropped, message_ids, oldest_of}
use walite.SyncPolicy.Oldest.{IsOldest, oldest_of-none}
use walite.SyncPolicy.Order.{anchor_before, anchor_older-key}
use walite.SyncPolicy.Prune.{
  deleted, expected, plan_prune-expected, deleted_valid, anchor_of, anchor_from,
}

-- The anchor of a chat once a plan with that replacement is applied.
abbrev pub in_force : Option MessageAnchor → Option MessageAnchor → Option MessageAnchor
in_force none existing = existing
in_force (some a) existing = some a

-- The anchor exists and `d` does not come before it.
abbrev pub Covers : Option MessageAnchor → MessageSummary → Type 0
Covers o d =
    (a : MessageAnchor) × (o ≡ some a)
    × (key_before d.sent_at d.message_id.value a.sent_at a.message_id.value ≡ false)

-- A replacement is strictly older than what it replaces.
abbrev pub Advances : Option MessageAnchor → Option MessageAnchor → Type 0
Advances none existing = Unit {0}
Advances (some a) none = Unit {0}
Advances (some a) (some b) = anchor_before a b ≡ true

replaces-Covers :
    (o : MessageSummary) (existing : Option MessageAnchor) (ds : List MessageSummary)
    → IsOldest o ds
    → All (Covers (in_force (replaces (anchor_of o) existing) existing)) ds
      × Advances (replaces (anchor_of o) existing) existing
unfolding replaces
replaces-Covers o none ds h = (All-imp _ _ (λ d k. (anchor_of o, refl, k)) ds h, tt)
replaces-Covers o (some b) ds h = elim (Bool-cases (anchor_older (anchor_of o) b)) [
  | inl older ↦ rw older (
    All-imp _ _ (λ d k. (anchor_of o, refl, k)) ds h,
    sym (anchor_older-key (anchor_of o) b) ∙ older,
  )
  | inr younger ↦ rw younger (
    All-imp _ _
        (λ d k. (
          b,
          refl,
          key_before_chain d.sent_at d.message_id.value o.sent_at o.message_id.value b.sent_at
              b.message_id.value k (sym (anchor_older-key (anchor_of o) b) ∙ younger),
        ))
        ds h,
    tt,
  )
]

dropped-nil :
    (limit : Time) (n : ℕ) (xs : List MessageSummary)
    → All (λ x. is_stale limit x ≡ false) xs
    → length xs ≤ n
    → dropped limit n xs ≡ []
unfolding dropped
dropped-nil limit zero [] h k = refl
dropped-nil limit (suc n) [] h k = refl
dropped-nil limit zero (x ∷ xs) h k = absurd (omega arith)
dropped-nil limit (suc n) (x ∷ xs) h k = rw h.0 (dropped-nil limit n xs h.1 (omega arith))

module _ (p : Policy) (snapshot : RetentionSnapshot) (s : RetentionState)
    (policy_valid : validate_policy p ≡ ok tt) (state_valid : validate_state s ≡ ok tt)
    (snapshot_valid : validate_snapshot snapshot ≡ ok tt) where
  -- For a valid policy, state and snapshot, a plan is computed without an error, and if it
  -- deletes anything, an anchor is in force, the new or the old one, that no deleted summary
  -- comes before in the order of time and identifier; a new anchor comes strictly before the old
  -- one.
  pub plan_prune-Covers :
      (plan : PrunePlan) × (gone : List MessageSummary) × (plan_prune p snapshot s ≡ ok plan)
      × (plan.delete_ids ≡ message_ids gone)
      × All (Covers (in_force plan.replacement snapshot.anchor)) gone
      × Advances plan.replacement snapshot.anchor
  plan_prune-Covers =
      let made = plan_prune-expected p snapshot s policy_valid state_valid snapshot_valid in
      let v = validate_snapshot-IsSnapshot snapshot snapshot_valid in
      let (covered, advanced) = covers in
      (expected p snapshot s, deleted p snapshot s, made, refl, covered, advanced)
    where
      covers :
          All
            (Covers (in_force (expected p snapshot s).replacement snapshot.anchor))
            (deleted p snapshot s)
          × Advances (expected p snapshot s).replacement snapshot.anchor
      covers =
          elim (oldest_of-none (IsSummary snapshot.chat_id) (deleted p snapshot s)
            (deleted_valid p snapshot s (validate_snapshot-IsSnapshot snapshot snapshot_valid))) [
              | inl (nothing, e) ↦ rw (e, nothing) (tt, tt)
              | inr (o, e, valid, oldest) ↦ rw e (replaces-Covers o snapshot.anchor _ oldest)
            ]

  -- For a valid policy, state and snapshot where all summaries have their bodies, are not older
  -- than the cutoff and are no more than `messages_per_chat`, the plan deletes nothing and moves
  -- no anchor.
  pub plan_prune-settled :
      All (λ x. is_stale (cutoff p s) x ≡ false) snapshot.summaries
      → pos (length snapshot.summaries) ≤ℤ p.messages_per_chat
      → plan_prune p snapshot s
        ≡ ok (record { chat_id = snapshot.chat_id; delete_ids = []; replacement = none })
  unfolding oldest_of
  plan_prune-settled fresh few =
      let made = plan_prune-expected p snapshot s policy_valid state_valid snapshot_valid in
      let limit : Time = cutoff p s in
      let e = validate_policy-pos p policy_valid in
      let sorted : List MessageSummary = sort_by summary_newer snapshot.summaries in
      let nothing : deleted p snapshot s ≡ [] =
        dropped-nil limit (pos_part p.messages_per_chat) sorted
          (All-sort_by summary_newer (λ x. is_stale limit x ≡ false) snapshot.summaries fresh)
          (rw (length-sort_by summary_newer snapshot.summaries) (ground arith)) in
      made ∙ ap (λ ds. ok (plan_of ds)) nothing
    where
      plan_of : List MessageSummary → PrunePlan
      plan_of ds = record {
        chat_id = snapshot.chat_id;
        delete_ids = message_ids ds;
        replacement = anchor_from (oldest_of none ds) snapshot.anchor;
      }
