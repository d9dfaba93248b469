-- ===== src/SyncPolicy/Guarantee.antt =====
-- The promises of pruning, stated without the loop: what stays, what goes, and the paging anchor.
use mathlib.Core.List.{Perm}
use mathlib.Core.List.Perm
use walite.Base.{
  ℕ, zero, suc, ◌≡◌, refl, ◌∙◌, sym, ap, pos, pos_part, ◌≤ℤ◌, true, false, List, [], ◌∷◌, ◌++◌,
  length, filter_by, All, All-imp, All-zip, All-const, All-take, filter_by-All, IsSorted, ok, arith,
  sort_by, sort_by-perm, Bool-cases, inl, inr, length-take, ◌⊎◌,
}
use walite.Model.Time.{Time, before}
use walite.Model.Retention.{MessageSummary, RetentionSnapshot, RetentionState, PrunePlan}
use walite.SyncPolicy.{
  Policy, cutoff, plan_prune, validate_policy, validate_state, validate_snapshot, summary_newer,
  is_stale,
}
use walite.SyncPolicy.Valid.{validate_policy-pos}
use walite.SyncPolicy.Loop.{survivors, dropped, message_ids, is_fresh, dropped-survivors-perm}
use walite.SyncPolicy.Order.{summary_newer-IsSorted}
use walite.SyncPolicy.Prune.{All-dropped, kept, deleted, expected, plan_prune-expected}

-- `d` is stale, or there was no room for it and no survivor is older.
abbrev Crowded : Time → ℕ → List MessageSummary → MessageSummary → Type 0
Crowded limit n ks d =
    (is_stale limit d ≡ true) ⊎ ((length ks ≡ n) × All (λ k. summary_newer d k ≡ false) ks)

Crowded-step :
    (limit : Time) (n : ℕ) (x : MessageSummary) (ks : List MessageSummary) (d : MessageSummary)
    → summary_newer d x ≡ false
    → Crowded limit n ks d
    → Crowded limit (suc n) (x ∷ ks) d
Crowded-step limit n x ks d after (inl stale) = inl stale
Crowded-step limit n x ks d after (inr (full, h)) = inr (ap suc full, (after, h))

Crowded-zero : (limit : Time) (d : MessageSummary) → Crowded limit 0 [] d
Crowded-zero limit d = inr (refl, tt)

dropped-Crowded :
    (limit : Time) (n : ℕ) (xs : List MessageSummary)
    → IsSorted summary_newer xs
    → All (Crowded limit n (survivors limit n xs)) (dropped limit n xs)
unfolding dropped
dropped-Crowded limit zero [] h = tt
dropped-Crowded limit (suc n) [] h = tt
dropped-Crowded limit zero (x ∷ xs) h = (
  Crowded-zero limit x,
  All-const (Crowded limit 0 []) (Crowded-zero limit) (dropped limit zero xs),
)
dropped-Crowded limit (suc n) (x ∷ xs) h = elim (Bool-cases (is_stale limit x)) [
  | inl stale ↦ rw stale (inl stale, dropped-Crowded limit (suc n) xs h.1)
  | inr fresh ↦ rw fresh (
      All-zip (λ d. summary_newer d x ≡ false) (Crowded limit n (survivors limit n xs))
        (Crowded limit (suc n) (x ∷ survivors limit n xs))
        (Crowded-step limit n x (survivors limit n xs)) (dropped limit n xs)
        (All-dropped _ limit n xs h.0) (dropped-Crowded limit n xs h.1))
]

-- The summaries of a snapshot part into those that a plan deletes and those that it leaves.
pub record Guarantee (p : Policy) (snapshot : RetentionSnapshot) (s : RetentionState)
    (plan : PrunePlan) (gone stay : List MessageSummary) : Type 0 where
  pub chat : plan.chat_id ≡ snapshot.chat_id
  pub ids : plan.delete_ids ≡ message_ids gone
  pub split : Perm (gone ++ stay) snapshot.summaries
  pub bounded : pos (length stay) ≤ℤ p.messages_per_chat
  pub fresh : All (λ k. (k.body_retained ≡ true) × (before k.sent_at (cutoff p s) ≡ false)) stay
  pub crowded :
      All
        (λ d.
          (is_stale (cutoff p s) d ≡ true)
          ⊎ ((pos (length stay) ≡ p.messages_per_chat) × All (λ k. summary_newer d k ≡ false) stay))
        gone

module _ (p : Policy) (snapshot : RetentionSnapshot) (s : RetentionState)
    (policy_valid : validate_policy p ≡ ok tt) (state_valid : validate_state s ≡ ok tt)
    (snapshot_valid : validate_snapshot snapshot ≡ ok tt) where
  -- For a valid policy, state and snapshot a plan is computed without an error, and it parts the
  -- snapshot's summaries: it deletes some, and those that stay are at most `messages_per_chat`,
  -- have their bodies and are not older than the cutoff; a deleted one that has its body and is
  -- not too old goes only because as many as the limit stay, none of which is older than it.
  pub plan_prune-Guarantee :
      (plan : PrunePlan) × (gone : List MessageSummary) × (stay : List MessageSummary) × (plan_prune
          p snapshot s
        ≡ ok plan)
      × Guarantee p snapshot s plan gone stay
  plan_prune-Guarantee =
      let n : ℕ = pos_part p.messages_per_chat in
      let limit : Time = cutoff p s in
      let e = validate_policy-pos p policy_valid in
      let sorted = sort_by summary_newer snapshot.summaries in
      (
        expected p snapshot s,
        deleted p snapshot s,
        kept p snapshot s,
        plan_prune-expected p snapshot s policy_valid state_valid snapshot_valid,
        record {
          chat = refl;
          ids = refl;
          split =
              Perm.trans (dropped-survivors-perm limit n sorted)
                (sort_by-perm summary_newer snapshot.summaries);
          bounded = rw e (omega (arith, length-take n (filter_by (is_fresh limit) sorted)));
          fresh =
              All-imp (λ k. is_fresh limit k ≡ true) _ (λ k f. (ground arith, ground arith)) _
                (All-take _ n _ (filter_by-All (is_fresh limit) sorted));
          crowded =
              All-imp (Crowded limit n (kept p snapshot s)) _
                (λ d c. elim c [
                  | inl stale ↦ inl stale
                  | inr (full, h) ↦ inr (ap pos full ∙ sym e, h)
                ])
                (deleted p snapshot s)
                (dropped-Crowded limit n sorted (summary_newer-IsSorted snapshot.summaries));
        },
      )
