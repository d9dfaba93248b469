-- ===== src/Store/Prune/Apply.antt =====
-- What `ApplyPrune` does to the store, and that it keeps what holds of it.
use walite.Base.{
  List, [], ◌∷◌, String, Option-cases, ℕ, ◌+◌, ◌≡◌, refl, ap, subst, pos, Bool, Bool-cases, inl,
  inr, Bytes, bytes_eq, bytes_eq-eq, length, All, Option, none, some, Result, ok, ◌>>◌, >>=-eq-ok,
  >>-eq-ok, reject_if-then, not-false→true, arith, ltb, if◌then◌else◌, not,
}
use walite.Assoc.{lookup, HasUniqueKeys, All-erase, All-lookup, lookup-insert}
use walite.Model.Identifier.{ChatId, MessageId}
use walite.Model.Identifier.Laws.{new_chat_id-then, new_message_id-then}
use walite.Model.Message.{Message}
use walite.Model.Time.{is_zero}
use walite.Model.Anchor.{MessageAnchor, new_message_anchor}
use walite.Model.Retention.{
  PrunePlan, PruneResult, new_prune_plan, new_prune_result, clone_anchor, clone_ids,
  max_prune_plan_deletes,
}
use walite.Store.Memory.{
  Memory, MemoryChat, StoreError, Context, running, check_context, or_rejected, or_invalid,
}
use walite.Store.Memory.Invariant.{IsMemory, IsChatEntry, IsMessageEntry, IsAnchor}
use walite.Store.Memory.Keeps.{or_return-IsMemory, replace_chat-IsMemory, or_rejected-ok}
use walite.Store.Prune.{
  Deletion, delete_all, delete_step, contains_id, apply_at, apply_prune, anchor_changes, new_anchor,
}
use walite.Store.Prune.Delete.{
  values, retained_count, IsDeletion, delete_all-Deleted, delete_step-Deleted,
}

delete_step-All :
    (P : Bytes × Message → Type 0) (d : Deletion) (key : Bytes)
    → All P d.messages
    → All P (delete_step d key).messages
unfolding delete_step
delete_step-All P d key h = elim (Bool-cases (contains_id d.seen key)) [
  | inl e ↦ rw e h
  | inr e ↦ elim (Option-cases (lookup key d.messages)) [
    | inl absent ↦ rw (e, absent) h
    | inr (m, there) ↦ rw (e, there) (All-erase P key d.messages h)
  ]
]

delete_all-All :
    (P : Bytes × Message → Type 0) (d : Deletion) (ids : List MessageId)
    → All P d.messages
    → All P (delete_all d ids).messages
unfolding delete_all
delete_all-All P d [] h = h
delete_all-All P d (id ∷ ids) h =
    delete_all-All P (delete_step d id.value) ids (delete_step-All P d id.value h)

delete_all-IsDeletion :
    (d : Deletion) (ids : List MessageId) → IsDeletion d → IsDeletion (delete_all d ids)
unfolding delete_all
delete_all-IsDeletion d [] v = v
delete_all-IsDeletion d (id ∷ ids) v =
    delete_all-IsDeletion (delete_step d id.value) ids (delete_step-Deleted d id.value v).0

abbrev pub start : MemoryChat → Deletion
start c = record { messages = c.messages; deleted = 0; bodies = 0; seen = [] }

pub start-IsDeletion : (c : MemoryChat) → HasUniqueKeys c.messages → IsDeletion (start c)
start-IsDeletion c u = record { unique = u; seen = tt }

new_anchor-IsAnchor :
    (key : Bytes) (a b : Option MessageAnchor)
    → IsAnchor key a
    → IsAnchor key b
    → IsAnchor key (new_anchor a b)
new_anchor-IsAnchor key a none h k = h
new_anchor-IsAnchor key a (some b) h k = k

new_message_anchor-IsAnchor :
    (a : MessageAnchor) {made : MessageAnchor}
    → new_message_anchor a.chat_id a.message_id a.sent_at a.from_me ≡ ok made
    → IsAnchor made.chat_id.value (some made)
unfolding new_message_anchor
new_message_anchor-IsAnchor a {made} h =
    let (chat_valid, h1) = new_chat_id-then a.chat_id.value _ h in
    let (id_valid, h2) = new_message_id-then a.message_id.value _ h1 in
    let (sent, h3) = reject_if-then (is_zero a.sent_at) _ _ h2 in
    let same : a ≡ made = cc in
    subst (λ b. IsAnchor b.chat_id.value (some b)) same (refl, id_valid, sent)

-- An anchor that a constructor has copied.
clone_anchor-IsAnchor :
    (c : ChatId) (field : String) (given : Option MessageAnchor) {made : Option MessageAnchor}
    → clone_anchor c field given ≡ ok made
    → IsAnchor c.value made
unfolding clone_anchor
clone_anchor-IsAnchor c field none {made} h =
    let same : none ≡ made = cc in subst (IsAnchor c.value) same tt
clone_anchor-IsAnchor c field (some a) {made} h =
    let (owned, built, h1) =
      >>=-eq-ok (new_message_anchor a.chat_id a.message_id a.sent_at a.from_me) _ h in
    let (same, h2) = reject_if-then (not (bytes_eq owned.chat_id.value c.value)) _ _ h1 in
    let here : some owned ≡ made = cc in
    let v = new_message_anchor-IsAnchor a built in
    subst (IsAnchor c.value) here
      (bytes_eq-eq owned.chat_id.value c.value (not-false→true _ same), v.1, v.2)

-- What a plan that `NewPrunePlan` made, or makes again, does to the chat that it names.
pub record Pruned (s : Memory) (plan : PrunePlan) (c after : MemoryChat)
    (r : Memory × Result StoreError PruneResult) : Type 0 where
  pub chats :
      (k : Bytes)
      → lookup k r.0.chats
        ≡ (if bytes_eq plan.chat_id.value k then some after else lookup k s.chats)
  pub lookups :
      (k : Bytes)
      → lookup k after.messages
        ≡ (if contains_id (values plan.delete_ids) k then none else lookup k c.messages)
  pub result :
      (rows : ℕ) × (bodies : ℕ) × (r.1
        ≡ ok (record {
          deleted_rows = pos rows;
          removed_bodies = pos bodies;
          anchor_replaced = anchor_changes c.anchor plan.replacement;
        }))
      × (rows + length after.messages ≡ length c.messages)
      × (bodies + retained_count after.messages ≡ retained_count c.messages)
  pub chat : after.chat ≡ c.chat
  pub anchor : after.anchor ≡ new_anchor c.anchor plan.replacement

abbrev pub after_plan : MemoryChat → PrunePlan → MemoryChat
after_plan c plan = record c {
  messages = (delete_all (start c) plan.delete_ids).messages;
  anchor = new_anchor c.anchor plan.replacement;
}

pub new_prune_result-ok :
    (rows bodies : ℕ) (replaced : Bool)
    → new_prune_result (pos rows) (pos bodies) replaced
      ≡ ok (record {
        deleted_rows = pos rows;
        removed_bodies = pos bodies;
        anchor_replaced = replaced;
      })
unfolding new_prune_result
new_prune_result-ok rows bodies replaced = ground arith

pub apply_prune-after :
    (s : Memory) (plan : PrunePlan) {c : MemoryChat}
    → IsMemory s
    → new_prune_plan plan.chat_id plan.delete_ids plan.replacement ≡ ok plan
    → lookup plan.chat_id.value s.chats ≡ some c
    → Pruned s plan c (after_plan c plan) (apply_prune s running plan)
unfolding apply_prune apply_at check_context
apply_prune-after s plan {c} v made there =
    let e = All-lookup IsChatEntry plan.chat_id.value s.chats v.entries there in
    let g = delete_all-Deleted (start c) plan.delete_ids (start-IsDeletion c e.unique) in
    let after = after_plan c plan in
    rw (made, there)
      (record {
        chats = λ k. lookup-insert plan.chat_id.value k after s.chats;
        lookups = g.lookups;
        result = (
          _,
          _,
          ap or_invalid (new_prune_result-ok _ _ (anchor_changes c.anchor plan.replacement)),
          omega (arith, g.rows),
          omega (arith, g.bodies),
        );
        chat = refl;
        anchor = refl;
      })

new_prune_plan-IsAnchor :
    (chat_id : ChatId) (ids : List MessageId) (given : Option MessageAnchor) {plan : PrunePlan}
    → new_prune_plan chat_id ids given ≡ ok plan
    → IsAnchor plan.chat_id.value plan.replacement
unfolding new_prune_plan
new_prune_plan-IsAnchor chat_id ids given {plan} h =
    let (chat_valid, h1) = new_chat_id-then chat_id.value _ h in
    let (few, h2) = reject_if-then (ltb max_prune_plan_deletes (length ids)) _ _ h1 in
    let (owned_ids, cloned, h3) = >>=-eq-ok (clone_ids ids) _ h2 in
    let (owned_anchor, copied, h4) =
      >>=-eq-ok (clone_anchor chat_id "replacement_anchor_chat_id" given) _ h3 in
    let same : record { chat_id = chat_id; delete_ids = owned_ids; replacement = owned_anchor }
        ≡ plan =
      cc in
    subst (λ (p : PrunePlan). IsAnchor p.chat_id.value p.replacement) same
      (clone_anchor-IsAnchor chat_id "replacement_anchor_chat_id" given copied)

apply_at-IsMemory :
    (s : Memory) (plan : PrunePlan)
    → IsMemory s
    → IsAnchor plan.chat_id.value plan.replacement
    → IsMemory (apply_at s plan (lookup plan.chat_id.value s.chats)).0
unfolding apply_at
apply_at-IsMemory s plan v a = elim (Option-cases (lookup plan.chat_id.value s.chats)) [
  | inl absent ↦ rw absent v
  | inr (c, there) ↦
      let e = All-lookup IsChatEntry plan.chat_id.value s.chats v.entries there in
      let g = delete_all-Deleted (start c) plan.delete_ids (start-IsDeletion c e.unique) in
      rw there (
        replace_chat-IsMemory s plan.chat_id.value (after_plan c plan) c v
          (record {
            key_valid = e.key_valid;
            unique =
                (delete_all-IsDeletion (start c) plan.delete_ids
                  (start-IsDeletion c e.unique)).unique;
            bounded = omega (arith, g.rows, e.bounded);
            entries =
                delete_all-All (IsMessageEntry plan.chat_id.value) (start c) plan.delete_ids
                  e.entries;
            anchor = new_anchor-IsAnchor plan.chat_id.value c.anchor plan.replacement e.anchor a;
          })
          there)
]

pub apply_prune-IsMemory :
    (s : Memory) (context : Context) (plan : PrunePlan)
    → IsMemory s
    → IsMemory (apply_prune s context plan).0
unfolding apply_prune
apply_prune-IsMemory s context plan v =
    or_return-IsMemory s
      (check_context context
        >> or_rejected (new_prune_plan plan.chat_id plan.delete_ids plan.replacement))
      (λ rebuilt. apply_at s rebuilt (lookup rebuilt.chat_id.value s.chats)) v
      (λ rebuilt made. apply_at-IsMemory s rebuilt v (
        new_prune_plan-IsAnchor plan.chat_id plan.delete_ids plan.replacement (
          or_rejected-ok (new_prune_plan plan.chat_id plan.delete_ids plan.replacement)
            (>>-eq-ok (check_context context) _ made).1)))
