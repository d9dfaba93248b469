-- ===== src/SyncPolicy/Loop.antt =====
-- What the loop of `PlanPrune` deletes, against the summaries that survive: the first ones, up to
-- the limit, of those that are fresh.
use mathlib.Core.List.{Perm, perm_middle}
use mathlib.Core.List.Perm
use walite.Base.{
  ℕ, zero, suc, ◌+◌, ◌≡◌, refl, ◌∙◌, sym, ap, pos, Bool, true, false, not, List, [], ◌∷◌, ◌++◌, map,
  take, filter_by, Option, if◌then◌else◌, arith, append_assoc, append-nil, Bool-cases, inl, inr,
  ◌<◌, ◌⊎◌,
}
use walite.Model.Time.{Time}
use walite.Model.Identifier.{MessageId}
use walite.Model.Retention.{MessageSummary}
use walite.SyncPolicy.{Policy, Sweep, sweep, sweep_step, is_stale, older_deleted}

abbrev pub message_ids : List MessageSummary → List MessageId
message_ids = map (λ x. x.message_id)

abbrev pub is_fresh : Time → MessageSummary → Bool
is_fresh limit x = not (is_stale limit x)

-- At most `n` fresh summaries, the newest of a list that is sorted so.
abbrev pub survivors : Time → ℕ → List MessageSummary → List MessageSummary
survivors limit n xs = take n (filter_by (is_fresh limit) xs)

-- The rest, with room left for `n` fresh summaries.
unfoldable pub dropped : Time → ℕ → List MessageSummary → List MessageSummary
dropped limit n [] = []
dropped limit zero (x ∷ xs) = x ∷ dropped limit zero xs
dropped limit (suc n) (x ∷ xs) =
    if is_stale limit x then x ∷ dropped limit (suc n) xs else dropped limit n xs

-- The oldest summary of a list, or the one already found.
unfoldable pub oldest_of : Option MessageSummary → List MessageSummary → Option MessageSummary
oldest_of found [] = found
oldest_of found (x ∷ xs) = oldest_of (older_deleted x found) xs

pub record Swept (limit : Time) (n : ℕ) (s : Sweep) (xs : List MessageSummary) (r : Sweep)
    : Type 0 where
  pub ids : r.delete_ids ≡ s.delete_ids ++ message_ids (dropped limit n xs)
  pub oldest : r.oldest_deleted ≡ oldest_of s.oldest_deleted (dropped limit n xs)

abbrev drop_step : Sweep → MessageSummary → Sweep
drop_step s x = record s {
  delete_ids = s.delete_ids ++ (x.message_id ∷ []);
  oldest_deleted = older_deleted x s.oldest_deleted;
}

sweep_step-drop :
    (p : Policy) (limit : Time) (s : Sweep) (x : MessageSummary)
    → (is_stale limit x ≡ true) ⊎ (p.messages_per_chat ≡ pos s.kept_bodies)
    → sweep_step p limit s x ≡ drop_step s x
unfolding sweep_step
sweep_step-drop p limit s x (inl stale) = rw stale
sweep_step-drop p limit s x (inr full) = elim (Bool-cases (is_stale limit x)) [
  | inl stale ↦ rw stale
  | inr fresh ↦ rw (fresh, full) (ground arith)
]

sweep_step-keep :
    (p : Policy) (limit : Time) (s : Sweep) (x : MessageSummary) (m : ℕ)
    → is_stale limit x ≡ false
    → p.messages_per_chat ≡ pos m
    → s.kept_bodies < m
    → sweep_step p limit s x ≡ record s { kept_bodies = s.kept_bodies + 1 }
unfolding sweep_step
sweep_step-keep p limit s x m fresh e room = rw (fresh, e) (ground arith)

Swept-drop :
    {limit : Time} {n : ℕ} {s : Sweep} {r : Sweep} (x : MessageSummary) (xs : List MessageSummary)
    → dropped limit n (x ∷ xs) ≡ x ∷ dropped limit n xs
    → Swept limit n (drop_step s x) xs r
    → Swept limit n s (x ∷ xs) r
unfolding oldest_of
Swept-drop {limit} {n} {s} {r} x xs e h = record {
  ids = rw e (h.ids ∙ append_assoc s.delete_ids (x.message_id ∷ []) _);
  oldest = rw e h.oldest;
}

pub sweep-Swept :
    (p : Policy) (limit : Time) (m n : ℕ) (s : Sweep) (xs : List MessageSummary)
    → p.messages_per_chat ≡ pos m
    → s.kept_bodies + n ≡ m
    → Swept limit n s xs (sweep p limit s xs)
unfolding sweep dropped oldest_of
sweep-Swept p limit m n s [] e k = empty n
  where
    empty : (n : ℕ) → Swept limit n s [] s
    empty n = record { ids = sym (append-nil s.delete_ids); oldest = refl }
sweep-Swept p limit m zero s (x ∷ xs) e k =
    rw (sweep_step-drop p limit s x (inr (e ∙ ap pos (omega arith))))
      (Swept-drop x xs refl (sweep-Swept p limit m zero (drop_step s x) xs e k))
sweep-Swept p limit m (suc n) s (x ∷ xs) e k = elim (Bool-cases (is_stale limit x)) [
  | inl stale ↦
      rw (sweep_step-drop p limit s x (inl stale))
        (Swept-drop x xs (rw stale) (sweep-Swept p limit m (suc n) (drop_step s x) xs e k))
  | inr fresh ↦ rw (sweep_step-keep p limit s x m fresh e (omega arith)) (
      kept fresh
        (sweep-Swept p limit m n (record s { kept_bodies = s.kept_bodies + 1 }) xs e (omega arith)))
]
  where
    kept :
        is_stale limit x ≡ false
        → {r : Sweep} → Swept limit n (record s { kept_bodies = s.kept_bodies + 1 }) xs r
        → Swept limit (suc n) s (x ∷ xs) r
    kept fresh h = record { ids = rw fresh h.ids; oldest = rw fresh h.oldest }

-- Each summary is either dropped or survives.
pub dropped-survivors-perm :
    (limit : Time) (n : ℕ) (xs : List MessageSummary)
    → Perm (dropped limit n xs ++ survivors limit n xs) xs
unfolding dropped
dropped-survivors-perm limit zero [] = Perm.refl []
dropped-survivors-perm limit (suc n) [] = Perm.refl []
dropped-survivors-perm limit zero (x ∷ xs) = Perm.cons x (dropped-survivors-perm limit zero xs)
dropped-survivors-perm limit (suc n) (x ∷ xs) = elim (Bool-cases (is_stale limit x)) [
  | inl stale ↦ rw stale (Perm.cons x (dropped-survivors-perm limit (suc n) xs))
  | inr fresh ↦ rw fresh (
      Perm.trans (perm_middle (dropped limit n xs) (survivors limit n xs))
        (Perm.cons x (dropped-survivors-perm limit n xs)))
]
