-- ===== src/SyncPolicy/Valid.antt =====
-- What the validations of the policy establish.
use walite.Base.{
  ◌≤◌, ◌≡◌, refl, pos, pos_part, false, List, [], ◌∷◌, length, All, ok, arith, ltb, bytes_eq-eq,
  >>-eq-ok, reject_if-then, not-false→true,
}
use walite.Model.Time.{is_zero}
use walite.Model.Identifier.{ChatId, MessageId}
use walite.Model.Identifier.Laws.{
  IsIdentifier, new_chat_id-ok, new_message_id-ok, new_chat_id-then, new_message_id-then,
}
use walite.Model.Anchor.{new_message_anchor}
use walite.Model.Retention.{
  MessageSummary, RetentionSnapshot, clone_ids, max_retention_snapshot_summaries,
}
use walite.SyncPolicy.{
  Policy, validate_policy, validate_summary, validate_summaries, validate_snapshot,
}

-- A summary that the policy may turn into an anchor of the chat.
pub record IsSummary (chat_id : ChatId) (x : MessageSummary) : Type 0 where
  pub chat : x.chat_id.value ≡ chat_id.value
  pub chat_valid : IsIdentifier x.chat_id.value
  pub id_valid : IsIdentifier x.message_id.value
  pub sent : is_zero x.sent_at ≡ false

pub validate_policy-pos :
    (p : Policy)
    → validate_policy p ≡ ok tt
    → p.messages_per_chat ≡ pos (pos_part p.messages_per_chat)
unfolding validate_policy
validate_policy-pos p h = ground arith

validate_summary-IsSummary :
    (c : ChatId) (x : MessageSummary) → validate_summary c x ≡ ok tt → IsSummary c x
unfolding validate_summary
validate_summary-IsSummary c x h =
    let (chat_valid, h1) = new_chat_id-then x.chat_id.value _ h in
    let (same, h2) = reject_if-then _ _ _ h1 in
    let (id_valid, h3) = new_message_id-then x.message_id.value _ h2 in
    let (sent, h4) = reject_if-then (is_zero x.sent_at) _ _ h3 in
    record {
      chat = bytes_eq-eq x.chat_id.value c.value (not-false→true _ same);
      chat_valid = chat_valid;
      id_valid = id_valid;
      sent = sent;
    }

pub validate_summaries-All :
    (c : ChatId) (xs : List MessageSummary) → validate_summaries c xs ≡ ok tt → All (IsSummary c) xs
unfolding validate_summaries
validate_summaries-All c [] h = tt
validate_summaries-All c (x ∷ xs) h =
    let (first, rest) = >>-eq-ok (validate_summary c x) (validate_summaries c xs) h in
    (validate_summary-IsSummary c x first, validate_summaries-All c xs rest)

pub record IsSnapshot (snapshot : RetentionSnapshot) : Type 0 where
  pub chat_valid : IsIdentifier snapshot.chat_id.value
  pub bounded : length snapshot.summaries ≤ max_retention_snapshot_summaries
  pub summaries_valid : All (IsSummary snapshot.chat_id) snapshot.summaries

pub validate_snapshot-IsSnapshot :
    (snapshot : RetentionSnapshot) → validate_snapshot snapshot ≡ ok tt → IsSnapshot snapshot
unfolding validate_snapshot
validate_snapshot-IsSnapshot snapshot h =
    let (chat_valid, h1) = new_chat_id-then snapshot.chat_id.value _ h in
    let (bounded, h2) =
      reject_if-then (ltb max_retention_snapshot_summaries (length snapshot.summaries)) _ _ h1 in
    let (all_valid, h3) = >>-eq-ok (validate_summaries snapshot.chat_id snapshot.summaries) _ h2 in
    record {
      chat_valid = chat_valid;
      bounded = ground arith;
      summaries_valid = validate_summaries-All snapshot.chat_id snapshot.summaries all_valid;
    }

pub IsSummary-anchor :
    {c : ChatId} (x : MessageSummary)
    → IsSummary c x
    → new_message_anchor x.chat_id x.message_id x.sent_at x.from_me
      ≡ ok (record {
        chat_id = x.chat_id;
        message_id = x.message_id;
        sent_at = x.sent_at;
        from_me = x.from_me;
      })
unfolding new_message_anchor
IsSummary-anchor x v =
    rw (new_chat_id-ok x.chat_id v.chat_valid, new_message_id-ok x.message_id v.id_valid, v.sent)

pub clone_ids-ok :
    (ids : List MessageId) → All (λ i. IsIdentifier i.value) ids → clone_ids ids ≡ ok ids
unfolding clone_ids
clone_ids-ok [] h = refl
clone_ids-ok (i ∷ ids) h = rw (new_message_id-ok i h.0, clone_ids-ok ids h.1)
