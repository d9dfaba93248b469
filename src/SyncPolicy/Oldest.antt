-- ===== src/SyncPolicy/Oldest.antt =====
-- The deleted summary that `PlanPrune` offers as the new paging anchor is an oldest one.
use walite.Base.{
  ◌≡◌, refl, ◌∙◌, sym, false, List, [], ◌∷◌, none, some, All, Bool-cases, inl, inr, ◌⊎◌,
}
use walite.Model.Order.{key_before_irrefl, key_before_asymm, key_before_chain}
use walite.Model.Retention.{MessageSummary}
use walite.SyncPolicy.{older_deleted, summary_older}
use walite.SyncPolicy.Order.{summary_before, summary_older-key}
use walite.SyncPolicy.Loop.{oldest_of}

-- No summary of the list comes before `o`.
abbrev pub IsOldest : MessageSummary → List MessageSummary → Type 0
IsOldest o ds = All (λ d. summary_before d o ≡ false) ds

chain :
    (x y z : MessageSummary)
    → summary_before x y ≡ false
    → summary_before y z ≡ false
    → summary_before x z ≡ false
chain x y z p q = key_before_chain _ _ y.sent_at y.message_id.value _ _ p q

module _ {κ} (P : MessageSummary → Type κ) where
  oldest_of-some :
      (f : MessageSummary) (ds : List MessageSummary)
      → P f
      → All P ds
      → (o : MessageSummary) × (oldest_of (some f) ds ≡ some o)
        × P o
        × (summary_before f o ≡ false)
        × IsOldest o ds
  unfolding oldest_of older_deleted
  oldest_of-some f [] p h = (f, refl, p, key_before_irrefl f.sent_at f.message_id.value, tt)
  oldest_of-some f (x ∷ ds) p h = elim (Bool-cases (summary_older x f)) [
    | inl older ↦
        let (o, e, po, x_o, rest) = oldest_of-some x ds h.0 h.1 in
        let f_x : summary_before f x ≡ false =
          key_before_asymm _ _ _ _ (sym (summary_older-key x f) ∙ older) in
        (o, rw older e, po, chain f x o f_x x_o, (x_o, rest))
    | inr not_older ↦
        let (o, e, po, f_o, rest) = oldest_of-some f ds p h.1 in
        let x_f : summary_before x f ≡ false = sym (summary_older-key x f) ∙ not_older in
        (o, rw not_older e, po, f_o, (chain x f o x_f f_o, rest))
  ]

  pub oldest_of-none :
      (ds : List MessageSummary)
      → All P ds
      → (ds ≡ []) × (oldest_of none ds ≡ none)
        ⊎ ((o : MessageSummary) × (oldest_of none ds ≡ some o) × P o × IsOldest o ds)
  unfolding oldest_of older_deleted
  oldest_of-none [] h = inl (refl, refl)
  oldest_of-none (x ∷ ds) h =
      let (o, e, po, x_o, rest) = oldest_of-some x ds h.0 h.1 in inr (o, e, po, (x_o, rest))
