-- ===== src/Store/Prune/Remain.antt =====
-- How many messages of a chat the policy's plan of its snapshot leaves.
use walite.Base.{
  ℕ, zero, suc, ◌+◌, ◌≤◌, ◌≡◌, ◌≢◌, sym, Bool-cases, inl, inr, List, [], ◌∷◌, map, Bytes, bytes_eq,
  bytes_eq-eq, bytes_eq_refl, length, length-map, length-take, length-sort_by, All, All-map,
  All-imp, All-sort_by, AllPairs, AllPairs-map, AllPairs-imp, sort_by, sort_by-AllPairs, some, none,
  arith, pos_part, filter_by,
}
use walite.Assoc.{Assoc, lookup, HasUniqueKeys}
use walite.Model.Time.{Time}
use walite.Model.Identifier.{ChatId}
use walite.Model.Message.{Message}
use walite.Model.Retention.{MessageSummary, RetentionState}
use walite.SyncPolicy.{Policy, cutoff, summary_newer, is_stale}
use walite.SyncPolicy.Loop.{survivors, dropped, message_ids, is_fresh}
use walite.SyncPolicy.Prune.{All-dropped, deleted, expected}
use walite.Store.Memory.{MemoryChat}
use walite.Store.Memory.Invariant.{
  IsChatEntry, IsMessageEntry, HaveOtherIds, messages_of, messages_of-AllPairs,
}
use walite.Store.Page.{newer, all_messages}
use walite.Store.Prune.Snapshot.{summary_of, snapshot_from}
use walite.Store.Prune.Count.{IsThere, AreDistinct, delete_all-count}
use walite.Store.Prune.Delete.{delete_all-Deleted}
use walite.Store.Prune.Apply.{start, start-IsDeletion, after_plan}

length-dropped :
    (limit : Time) (n : ℕ) (xs : List MessageSummary)
    → length (dropped limit n xs) + length (survivors limit n xs) ≡ length xs
unfolding dropped
length-dropped limit zero [] = omega arith
length-dropped limit (suc n) [] = omega arith
length-dropped limit zero (x ∷ xs) = omega (arith, length-dropped limit zero xs)
length-dropped limit (suc n) (x ∷ xs) = elim (Bool-cases (is_stale limit x)) [
  | inl stale ↦ rw stale (omega (arith, length-dropped limit (suc n) xs))
  | inr fresh ↦ rw fresh (omega (arith, length-dropped limit n xs))
]

AllPairs-dropped {κ} :
    (R : MessageSummary → MessageSummary → Type κ) (limit : Time) (n : ℕ) (xs : List MessageSummary)
    → AllPairs R xs
    → AllPairs R (dropped limit n xs)
unfolding dropped
AllPairs-dropped R limit n [] h = tt
AllPairs-dropped R limit zero (x ∷ xs) h =
    (All-dropped (R x) limit zero xs h.0, AllPairs-dropped R limit zero xs h.1)
AllPairs-dropped R limit (suc n) (x ∷ xs) h = elim (Bool-cases (is_stale limit x)) [
  | inl stale ↦
      rw stale (All-dropped (R x) limit (suc n) xs h.0, AllPairs-dropped R limit (suc n) xs h.1)
  | inr fresh ↦ rw fresh (AllPairs-dropped R limit n xs h.1)
]

-- The message of the identifier is in the chat.
abbrev Stored : Assoc Message → Message → Type 0
Stored es m = (n : Message) × (lookup m.message_id.value es ≡ some n)

Stored-tail :
    (j : Bytes) (v : Message) (es : Assoc Message) (m : Message)
    → lookup j es ≡ none
    → Stored es m
    → Stored ((j, v) ∷ es) m
unfolding lookup
Stored-tail j v es m absent (n, there) = elim (Bool-cases (bytes_eq j m.message_id.value)) [
  | inl e ↦ (v, rw e)
  | inr e ↦ (n, rw e there)
]

Stored-head :
    (j : Bytes) (m : Message) (es : Assoc Message)
    → m.message_id.value ≡ j
    → lookup m.message_id.value ((j, m) ∷ es) ≡ some m
unfolding lookup
Stored-head j m es e = rw (e, bytes_eq_refl j)

messages_of-Stored :
    (key : Bytes) (es : Assoc Message)
    → HasUniqueKeys es
    → All (IsMessageEntry key) es
    → All (Stored es) (messages_of es)
messages_of-Stored key [] u h = tt
messages_of-Stored key ((j, m) ∷ es) u h = (
  (m, Stored-head j m es h.0.id),
  All-imp (Stored es) (Stored ((j, m) ∷ es)) (λ n. Stored-tail j m es n u.0) (messages_of es)
      (messages_of-Stored key es u.1 h.1),
)

abbrev OtherIds : MessageSummary → MessageSummary → Type 0
OtherIds x y = x.message_id.value ≢ y.message_id.value

AreDistinct-ne : (x y : MessageSummary) → OtherIds x y → AreDistinct x.message_id y.message_id
AreDistinct-ne x y h = elim (Bool-cases (bytes_eq x.message_id.value y.message_id.value)) [
  | inl e ↦ absurd (h (bytes_eq-eq x.message_id.value y.message_id.value e))
  | inr e ↦ e
]

module _ (p : Policy) (t : RetentionState) (id : ChatId) (c : MemoryChat)
    (v : IsChatEntry (id.value, c)) where
  abbrev gone : List MessageSummary
  gone = deleted p (snapshot_from id c) t

  gone-IsThere : All (λ x. IsThere c.messages x.message_id) gone
  gone-IsThere =
      let ms = all_messages c in
      All-dropped (λ x. IsThere c.messages x.message_id) (cutoff p t) _ _
        (All-sort_by summary_newer (λ x. IsThere c.messages x.message_id) _
          (All-map summary_of (λ x. IsThere c.messages x.message_id) (sort_by newer ms)
            (All-sort_by newer (Stored c.messages) ms
              (messages_of-Stored id.value c.messages v.unique v.entries))))

  gone-distinct : AllPairs OtherIds gone
  gone-distinct =
      let ms = all_messages c in
      AllPairs-dropped OtherIds (cutoff p t) _ _ (
        sort_by-AllPairs summary_newer OtherIds (λ x y ne e. ne (sym e)) _
          (AllPairs-map summary_of OtherIds (sort_by newer ms) (
            sort_by-AllPairs newer HaveOtherIds (λ x y ne e. ne (sym e)) ms
              (messages_of-AllPairs id.value c.messages v.unique v.entries))))

  -- What stays is what the policy keeps, in number.
  pub length-after_plan :
      length (after_plan c (expected p (snapshot_from id c) t)).messages
      ≤ pos_part p.messages_per_chat
  length-after_plan =
      let limit = cutoff p t in
      let n = pos_part p.messages_per_chat in
      let ms = all_messages c in
      let sorted = sort_by summary_newer (map summary_of (sort_by newer ms)) in
      let ids = message_ids gone in
      let rows = (delete_all-Deleted (start c) ids (start-IsDeletion c v.unique)).rows in
      let counted =
        delete_all-count c.messages ids v.unique
          (All-map (λ (x : MessageSummary). x.message_id) (IsThere c.messages) gone gone-IsThere)
          (AllPairs-map (λ (x : MessageSummary). x.message_id) AreDistinct gone
            (AllPairs-imp OtherIds (λ x y. AreDistinct x.message_id y.message_id) AreDistinct-ne
              gone gone-distinct)) in
      omega (
        arith,
        rows,
        counted,
        length-map (λ (x : MessageSummary). x.message_id) gone,
        length-dropped limit n sorted,
        length-take n (filter_by (is_fresh limit) sorted),
        length-sort_by summary_newer (map summary_of (sort_by newer ms)),
        length-map summary_of (sort_by newer ms),
        length-sort_by newer ms,
        length-map (λ (f : Bytes × Message). f.1) c.messages,
      )
