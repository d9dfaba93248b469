-- ===== src/SyncPolicy/Prune.antt =====
-- What a prune plan deletes, keeps and offers as the paging anchor.
use walite.Base.{
  ℕ, zero, suc, ◌≤◌, ◌≡◌, refl, pos_part, false, List, [], ◌∷◌, length, All, All-sort_by,
  length-sort_by, Option, none, some, ok, arith, sort_by, Bool-cases, inl, inr, ltb, bytes_eq_refl,
  length-map,
}
use walite.Model.Identifier.{MessageId, ChatId}
use walite.Model.Identifier.Laws.{IsIdentifier, new_chat_id-ok}
use walite.Model.Anchor.{MessageAnchor}
use walite.Model.Time.{Time}
use walite.Model.Retention.{
  MessageSummary, RetentionSnapshot, RetentionState, PrunePlan, new_prune_plan, clone_anchor,
  clone_ids, max_prune_plan_deletes,
}
use walite.SyncPolicy.{
  Policy, cutoff, plan_prune, validate_policy, validate_state, validate_snapshot, summary_newer,
  anchor_older, sweep_start, replacement_for, replaces, is_stale,
}
use walite.SyncPolicy.Valid.{
  IsSummary, IsSnapshot, validate_policy-pos, validate_snapshot-IsSnapshot, IsSummary-anchor,
  clone_ids-ok,
}
use walite.SyncPolicy.Loop.{survivors, dropped, message_ids, oldest_of, sweep-Swept}
use walite.SyncPolicy.Oldest.{oldest_of-none}

pub All-dropped {κ} :
    (P : MessageSummary → Type κ) (limit : Time) (n : ℕ) (xs : List MessageSummary)
    → All P xs
    → All P (dropped limit n xs)
unfolding dropped
All-dropped P limit n [] h = tt
All-dropped P limit zero (x ∷ xs) h = (h.0, All-dropped P limit zero xs h.1)
All-dropped P limit (suc n) (x ∷ xs) h = elim (Bool-cases (is_stale limit x)) [
  | inl stale ↦ rw stale (h.0, All-dropped P limit (suc n) xs h.1)
  | inr fresh ↦ rw fresh (All-dropped P limit n xs h.1)
]

length-dropped-le :
    (limit : Time) (n : ℕ) (xs : List MessageSummary) → length (dropped limit n xs) ≤ length xs
unfolding dropped
length-dropped-le limit n [] = omega arith
length-dropped-le limit zero (x ∷ xs) = omega (arith, length-dropped-le limit zero xs)
length-dropped-le limit (suc n) (x ∷ xs) =
    ground (arith, length-dropped-le limit (suc n) xs, length-dropped-le limit n xs)

abbrev pub anchor_of : MessageSummary → MessageAnchor
anchor_of d = record {
  chat_id = d.chat_id;
  message_id = d.message_id;
  sent_at = d.sent_at;
  from_me = d.from_me;
}

abbrev pub anchor_from : Option MessageSummary → Option MessageAnchor → Option MessageAnchor
anchor_from none existing = none
anchor_from (some d) existing = replaces (anchor_of d) existing

module _ (p : Policy) (snapshot : RetentionSnapshot) (s : RetentionState) where
  abbrev newest_first : List MessageSummary
  newest_first = sort_by summary_newer snapshot.summaries

  abbrev room : ℕ
  room = pos_part p.messages_per_chat

  abbrev pub kept : List MessageSummary
  kept = survivors (cutoff p s) room newest_first

  abbrev pub deleted : List MessageSummary
  deleted = dropped (cutoff p s) room newest_first

  abbrev pub anchor : Option MessageAnchor
  anchor = anchor_from (oldest_of none deleted) snapshot.anchor

  -- The plan that a valid snapshot gets.
  abbrev pub expected : PrunePlan
  expected = record {
    chat_id = snapshot.chat_id;
    delete_ids = message_ids deleted;
    replacement = anchor;
  }

module _ (c : ChatId) (d : MessageSummary) (v : IsSummary c d) where
  clone_candidate :
      clone_anchor c "replacement_anchor_chat_id" (some (anchor_of d)) ≡ ok (some (anchor_of d))
  unfolding clone_anchor
  clone_candidate = rw (IsSummary-anchor d v, v.chat, bytes_eq_refl c.value)

  clone_replaces :
      (existing : Option MessageAnchor)
      → clone_anchor c "replacement_anchor_chat_id" (replaces (anchor_of d) existing)
        ≡ ok (replaces (anchor_of d) existing)
  unfolding replaces
  clone_replaces none = clone_candidate
  clone_replaces (some a) = elim (Bool-cases (anchor_older (anchor_of d) a)) [
    | inl older ↦ rw older clone_candidate
    | inr not_older ↦ rw not_older clone_none
  ]
    where
      clone_none : clone_anchor c "replacement_anchor_chat_id" none ≡ ok none
      clone_none = unfold clone_anchor in refl

module _ (p : Policy) (snapshot : RetentionSnapshot) (s : RetentionState)
    (v : IsSnapshot snapshot) where
  pub deleted_valid : All (IsSummary snapshot.chat_id) (deleted p snapshot s)
  deleted_valid =
      All-dropped (IsSummary snapshot.chat_id) (cutoff p s) _ _ (
        All-sort_by summary_newer (IsSummary snapshot.chat_id) snapshot.summaries v.summaries_valid)

  -- The two fallible steps behind the loop succeed.
  anchor_made :
      (replacement_for (oldest_of none (deleted p snapshot s)) snapshot.anchor
        ≡ ok (anchor p snapshot s))
      × (clone_anchor snapshot.chat_id "replacement_anchor_chat_id" (anchor p snapshot s)
          ≡ ok (anchor p snapshot s))
  unfolding replacement_for
  anchor_made =
      elim (oldest_of-none (IsSummary snapshot.chat_id) (deleted p snapshot s) deleted_valid) [
        | inl (_, e) ↦ rw e (refl, unfold clone_anchor in refl)
        | inr (o, e, valid, _) ↦
            rw e (
              rw (IsSummary-anchor o valid),
              clone_replaces snapshot.chat_id o valid snapshot.anchor,
            )
      ]

  ids_made :
      clone_ids (message_ids (deleted p snapshot s)) ≡ ok (message_ids (deleted p snapshot s))
  ids_made = clone_ids-ok _ (valid_ids (deleted p snapshot s) deleted_valid)
    where
      valid_ids :
          (ds : List MessageSummary)
          → All (IsSummary snapshot.chat_id) ds
          → All (λ (i : MessageId). IsIdentifier i.value) (message_ids ds)
      valid_ids [] h = tt
      valid_ids (d ∷ ds) h = (h.0.id_valid, valid_ids ds h.1)

  pub plan_made :
      new_prune_plan snapshot.chat_id (message_ids (deleted p snapshot s)) (anchor p snapshot s)
      ≡ ok (expected p snapshot s)
  unfolding new_prune_plan
  plan_made =
      let few : ltb max_prune_plan_deletes (length (message_ids (deleted p snapshot s))) ≡ false =
        ground (
          arith,
          length-map (λ (x : MessageSummary). x.message_id) (deleted p snapshot s),
          length-dropped-le (cutoff p s) (room p snapshot s) (newest_first p snapshot s),
          length-sort_by summary_newer snapshot.summaries,
          v.bounded,
        ) in
      rw (new_chat_id-ok snapshot.chat_id v.chat_valid, few, ids_made, anchor_made.1)

-- For a valid policy, state and snapshot the plan is computed, without an error: it deletes exactly
-- the summaries that are not among the newest `messages_per_chat` fresh ones.
pub plan_prune-expected :
    (p : Policy) (snapshot : RetentionSnapshot) (s : RetentionState)
    → validate_policy p ≡ ok tt
    → validate_state s ≡ ok tt
    → validate_snapshot snapshot ≡ ok tt
    → plan_prune p snapshot s ≡ ok (expected p snapshot s)
unfolding plan_prune
plan_prune-expected p snapshot s hp hs hv =
    let v = validate_snapshot-IsSnapshot snapshot hv in
    let w =
      sweep-Swept p (cutoff p s) (room p snapshot s) (room p snapshot s) sweep_start
        (newest_first p snapshot s) (validate_policy-pos p hp) (omega arith) in
    rw (hp, hs, hv, w.ids, w.oldest, (anchor_made p snapshot s v).0) (plan_made p snapshot s v)
