-- ===== src/Store/Prune/Snapshot.antt =====
-- The snapshot that the retention policy gets of a chat in the store.
use walite.Base.{
  ◌≡◌, refl, sym, subst, pos, false, List, [], ◌∷◌, map, Bytes, bytes_eq_refl, length, length-map,
  length-sort_by, All, All-sort_by, sort_by, Option, none, some, ok, arith, if◌then◌else◌, ltb,
}
use walite.Assoc.{lookup, All-lookup}
use walite.Model.Identifier.{ChatId}
use walite.Model.Identifier.Laws.{IsIdentifier, new_chat_id-ok, new_message_id-ok}
use walite.Model.Message.{Message}
use walite.Model.Anchor.{MessageAnchor, new_message_anchor}
use walite.Model.Retention.{
  MessageSummary, RetentionSnapshot, new_message_summary, clone_message_summary, clone_summaries,
  clone_anchor, new_retention_snapshot, max_retention_snapshot_summaries,
}
use walite.SyncPolicy.{validate_summary, validate_summaries, validate_anchor, validate_snapshot}
use walite.Store.Memory.{Memory, MemoryChat, running, check_context}
use walite.Store.Memory.Invariant.{
  IsMessageOf, messages_of-IsMessageOf, IsMemory, IsChatEntry, IsAnchor,
}
use walite.Store.Prune.{retention_snapshot, snapshot_of}
use walite.Store.Page.{newer, all_messages}

abbrev pub summary_of : Message → MessageSummary
summary_of m = record {
  chat_id = m.chat_id;
  message_id = m.message_id;
  sent_at = m.sent_at;
  from_me = m.from_me;
  body_retained = m.body_retained;
  body_bytes = if m.body_retained then pos (length m.text) else pos 0;
}

module _ (c : ChatId) where
  new_message_summary-summary_of :
      (m : Message) → IsMessageOf c.value m → new_message_summary m ≡ summary_of m
  unfolding new_message_summary
  new_message_summary-summary_of m v = rw (
    new_message_summary,
    new_chat_id-ok m.chat_id v.chat_valid,
    new_message_id-ok m.message_id v.id_valid,
    v.sent,
  )

  pub map-summary_of :
      (ms : List Message)
      → All (IsMessageOf c.value) ms
      → map new_message_summary ms ≡ map summary_of ms
  map-summary_of [] h = refl
  map-summary_of (m ∷ ms) h = rw (new_message_summary-summary_of m h.0, map-summary_of ms h.1)

  clone-summary_of :
      (m : Message)
      → IsMessageOf c.value m
      → clone_message_summary (summary_of m) ≡ ok (summary_of m)
  unfolding clone_message_summary
  clone-summary_of m v =
      rw (new_chat_id-ok m.chat_id v.chat_valid, new_message_id-ok m.message_id v.id_valid, v.sent)
        (ground (arith, v.text_bounded))

  clone_summaries-ok :
      (ms : List Message)
      → All (IsMessageOf c.value) ms
      → clone_summaries c (map summary_of ms) ≡ ok (map summary_of ms)
  unfolding clone_summaries
  clone_summaries-ok [] h = refl
  clone_summaries-ok (m ∷ ms) h =
      rw (clone-summary_of m h.0, h.0.chat, bytes_eq_refl c.value, clone_summaries-ok ms h.1)

  validate_summary-ok :
      (m : Message) → IsMessageOf c.value m → validate_summary c (summary_of m) ≡ ok tt
  unfolding validate_summary
  validate_summary-ok m v =
      rw
        (
          new_chat_id-ok m.chat_id v.chat_valid,
          v.chat,
          bytes_eq_refl c.value,
          new_message_id-ok m.message_id v.id_valid,
          v.sent,
        )
        (ground (arith, v.text_bounded))

  validate_summaries-ok :
      (ms : List Message)
      → All (IsMessageOf c.value) ms
      → validate_summaries c (map summary_of ms) ≡ ok tt
  unfolding validate_summaries
  validate_summaries-ok [] h = refl
  validate_summaries-ok (m ∷ ms) h = rw (validate_summary-ok m h.0) (validate_summaries-ok ms h.1)

clone_anchor-ok :
    (c : ChatId) (a : Option MessageAnchor)
    → IsIdentifier c.value
    → IsAnchor c.value a
    → (clone_anchor c "anchor_chat_id" a ≡ ok a) × (validate_anchor c a ≡ ok tt)
unfolding clone_anchor validate_anchor new_message_anchor
clone_anchor-ok c none valid h = (refl, refl)
clone_anchor-ok c (some a) valid h =
    let chat_valid = subst IsIdentifier (sym h.0) valid in
    (
      rw (
        new_chat_id-ok a.chat_id chat_valid,
        new_message_id-ok a.message_id h.1,
        h.2,
        h.0,
        bytes_eq_refl c.value,
      ),
      rw (
        new_chat_id-ok a.chat_id chat_valid,
        new_message_id-ok a.message_id h.1,
        h.2,
        h.0,
        bytes_eq_refl c.value,
      ),
    )

-- The snapshot of a chat: its messages newest first, each by its summary.
abbrev pub snapshot_from : ChatId → MemoryChat → RetentionSnapshot
snapshot_from id c = record {
  chat_id = id;
  summaries = map summary_of (sort_by newer (all_messages c));
  anchor = c.anchor;
}

-- The retention snapshot of a chat of a valid store is made without an error, has the summaries of
-- its messages newest first and its anchor, and passes the policy's validation.
pub retention_snapshot-valid :
    (s : Memory) (id : ChatId) {c : MemoryChat}
    → IsMemory s
    → lookup id.value s.chats ≡ some c
    → (retention_snapshot s running id ≡ ok (snapshot_from id c))
      × (validate_snapshot (snapshot_from id c) ≡ ok tt)
unfolding retention_snapshot snapshot_of check_context new_retention_snapshot validate_snapshot
retention_snapshot-valid s id {c} v there =
    let e = All-lookup IsChatEntry id.value s.chats v.entries there in
    let ordered = sort_by newer (all_messages c) in
    let valid =
      All-sort_by newer (IsMessageOf id.value) (all_messages c)
        (messages_of-IsMessageOf id.value c.messages e.key_valid e.entries) in
    let (anchor_made, anchor_checked) = clone_anchor-ok id c.anchor e.key_valid e.anchor in
    let few : ltb max_retention_snapshot_summaries (length (map summary_of ordered)) ≡ false =
      ground (
        arith,
        e.bounded,
        length-map summary_of ordered,
        length-sort_by newer (all_messages c),
        length-map (λ (f : Bytes × Message). f.1) c.messages,
      ) in
    (
      rw (
        new_chat_id-ok id e.key_valid,
        there,
        map-summary_of id ordered valid,
        new_chat_id-ok id e.key_valid,
        few,
        clone_summaries-ok id ordered valid,
        anchor_made,
      ),
      rw (
        new_chat_id-ok id e.key_valid,
        few,
        validate_summaries-ok id ordered valid,
        anchor_checked,
      ),
    )
