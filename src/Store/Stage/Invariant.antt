-- ===== src/Store/Stage/Invariant.antt =====
-- The loop of `writeBatch` that stages the messages keeps what holds of them.
use walite.Base.{
  ◌≡◌, refl, sym, ap, ◌∙◌, subst, Bool, true, false, ◌&&◌, not, Bool-cases, Option-cases, inl, inr,
  List, [], ◌∷◌, Bytes, bytes_eq, bytes_eq-eq, length, ◌≤◌, &&-true_iff, All, none, some, arith,
  if◌then◌else◌,
}
use walite.Assoc.{lookup, All-lookup}
use walite.Model.Identifier.Laws.{IsIdentifier}
use walite.Model.Time.{is_zero}
use walite.Model.Message.{Message}
use walite.Model.Normalize.{max_retained_text_bytes}
use walite.Store.Memory.{Memory}
use walite.Store.Memory.Invariant.{IsMemory, IsChatEntry, IsMessageEntry}
use walite.Store.Merge.{conflicts, merge_message}
use walite.Store.Merge.Keeps.{merge_message-Merged}
use walite.Store.Stage.{
  Staging, chat_key, message_key, has_keys, find_staged, find_stored, or_stored, find_prior,
}
use walite.Store.Stage.Places.{IsPlaced, IsWhole, Stands, IsStaging}

-- A message that was found under the keys of another.
pub record IsPrior (s : Memory) (g : Staging) (m prior : Message) : Type 0 where
  pub chat : prior.chat_id.value ≡ m.chat_id.value
  pub id : prior.message_id.value ≡ m.message_id.value
  pub text_bounded : length prior.text ≤ max_retained_text_bytes
  pub placed : IsPlaced s g.new_ids (chat_key m) (message_key m)

find_staged-IsPrior :
    (s : Memory) (g : Staging) (m : Message) (ms : List Message) {prior : Message}
    → All (Stands s g) ms
    → find_staged (chat_key m) (message_key m) ms ≡ some prior
    → IsPrior s g m prior
unfolding find_staged
find_staged-IsPrior s g m [] h e = absurd (grind arith)
find_staged-IsPrior s g m (n ∷ ms) {prior} h e =
    elim (Bool-cases (has_keys (chat_key m) (message_key m) n)) [
      | inl keys ↦
          let (chat, id) =
            (&&-true_iff (bytes_eq (chat_key n) (chat_key m))
                (bytes_eq (message_key n) (message_key m))).0
              keys in
          let same_chat = bytes_eq-eq (chat_key n) (chat_key m) chat in
          let same_id = bytes_eq-eq (message_key n) (message_key m) id in
          let here : n ≡ prior = ground arith in
          subst (IsPrior s g m) here (record {
            chat = same_chat;
            id = same_id;
            text_bounded = h.0.0.text_bounded;
            placed =
                subst (λ k. IsPlaced s g.new_ids k (message_key m)) same_chat
                  (subst (IsPlaced s g.new_ids (chat_key n)) same_id h.0.1);
          })
      | inr other ↦ find_staged-IsPrior s g m ms h.1 (ground arith)
    ]

find_stored-IsPrior :
    (s : Memory) (g : Staging) (m prior : Message)
    → IsMemory s
    → find_stored (lookup (chat_key m) s.chats) (message_key m) ≡ some prior
    → IsPrior s g m prior
find_stored-IsPrior s g m prior v e = elim (Option-cases (lookup (chat_key m) s.chats)) [
  | inl absent ↦ absurd (none-some (sym (ap (λ o. find_stored o (message_key m)) absent) ∙ e))
  | inr (c, there) ↦
      let found : lookup (message_key m) c.messages ≡ some prior =
        sym (ap (λ o. find_stored o (message_key m)) there) ∙ e in
      let entry =
        All-lookup (IsMessageEntry (chat_key m)) (message_key m) c.messages
          (All-lookup IsChatEntry (chat_key m) s.chats v.entries there).entries found in
      record {
        chat = entry.chat;
        id = entry.id;
        text_bounded = entry.text_bounded;
        placed = inl (c, there, prior, found);
      }
]
  where
    none-some : none ≡ some prior → ⊥
    none-some h = cc

pub find_prior-IsPrior :
    (s : Memory) (g : Staging) (m : Message) {prior : Message}
    → IsMemory s
    → IsStaging s g
    → find_prior s g m ≡ some prior
    → IsPrior s g m prior
unfolding find_prior
find_prior-IsPrior s g m {prior} v w e =
    elim (Option-cases (find_staged (chat_key m) (message_key m) g.staged)) [
      | inl absent ↦ find_stored-IsPrior s g m prior v (
          sym (
            ap (λ o. or_stored o (find_stored (lookup (chat_key m) s.chats) (message_key m)))
              absent)
          ∙ e)
      | inr (n, there) ↦ find_staged-IsPrior s g m g.staged w.staged (
          there
          ∙ sym (
              ap (λ o. or_stored o (find_stored (lookup (chat_key m) s.chats) (message_key m)))
                there)
          ∙ e)
    ]

text-of :
    (b : Bool) (s t : Bytes)
    → length s ≤ max_retained_text_bytes
    → length t ≤ max_retained_text_bytes
    → length (if b then s else t) ≤ max_retained_text_bytes
text-of true s t h k = h
text-of false s t h k = k

-- Merged with the one that was there, a message stands where it stood.
pub merge_message-IsWhole :
    (s : Memory) (g : Staging) (m prior : Message)
    → IsPrior s g m prior
    → IsWhole m
    → conflicts prior m ≡ false
    → IsWhole (merge_message prior m)
merge_message-IsWhole s g m prior f w agree =
    let r = merge_message-Merged prior m f.chat f.id agree in
    record {
      chat = refl;
      chat_valid = subst IsIdentifier (sym r.chat) w.chat_valid;
      id_valid = subst IsIdentifier (sym r.id) w.id_valid;
      sent = ap (λ t. is_zero t) r.sent ∙ w.sent;
      text_bounded =
          subst (λ t. length t ≤ max_retained_text_bytes) (sym r.text)
            (text-of (prior.body_retained && not m.body_retained) prior.text m.text f.text_bounded
              w.text_bounded);
    }
