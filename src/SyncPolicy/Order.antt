-- ===== src/SyncPolicy/Order.antt =====
-- The comparisons of the policy are one strict total order, read in two directions.
use walite.Base.{
  ◌≡◌, refl, ◌∙◌, sym, Bool, true, false, arith, List, IsSorted, sort_by, sort_by-IsSorted,
}
use walite.Model.Order.{key_before, key_before_asymm, key_before_chain}
use walite.Model.Anchor.{MessageAnchor}
use walite.Model.Retention.{MessageSummary}
use walite.SyncPolicy.{summary_newer, summary_older, anchor_older}

abbrev pub summary_before : MessageSummary → MessageSummary → Bool
summary_before l r = key_before l.sent_at l.message_id.value r.sent_at r.message_id.value

abbrev pub anchor_before : MessageAnchor → MessageAnchor → Bool
anchor_before l r = key_before l.sent_at l.message_id.value r.sent_at r.message_id.value

pub summary_older-key : (l r : MessageSummary) → summary_older l r ≡ summary_before l r
unfolding summary_older key_before
summary_older-key l r = refl

pub summary_newer-key : (l r : MessageSummary) → summary_newer l r ≡ summary_before r l
unfolding summary_newer key_before
summary_newer-key l r = ground arith

pub anchor_older-key : (l r : MessageAnchor) → anchor_older l r ≡ anchor_before l r
unfolding anchor_older key_before
anchor_older-key l r = refl

summary_newer_asymm : (l r : MessageSummary) → summary_newer l r ≡ true → summary_newer r l ≡ false
summary_newer_asymm l r h =
    summary_newer-key r l ∙ key_before_asymm _ _ _ _ (sym (summary_newer-key l r) ∙ h)

summary_newer_chain :
    (x y z : MessageSummary)
    → summary_newer y x ≡ false
    → summary_newer z y ≡ false
    → summary_newer z x ≡ false
summary_newer_chain x y z p q =
    summary_newer-key z x
    ∙ key_before_chain x.sent_at x.message_id.value y.sent_at y.message_id.value z.sent_at
        z.message_id.value (sym (summary_newer-key y x) ∙ p) (sym (summary_newer-key z y) ∙ q)

pub summary_newer-IsSorted :
    (work : List MessageSummary) → IsSorted summary_newer (sort_by summary_newer work)
summary_newer-IsSorted = sort_by-IsSorted summary_newer summary_newer_asymm summary_newer_chain
