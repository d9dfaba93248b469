-- ===== src/Store/Write/Chats.antt =====
-- The new chats of a batch, and its messages, as they are stored.
use walite.Base.{
  suc, ◌+◌, ◌≤◌, ◌≡◌, refl, sym, ap, ◌∙◌, true, false, Bool-cases, Option-cases, inl, inr, ◌⊎◌,
  List, [], ◌∷◌, Bytes, bytes_eq, bytes_eq-eq, length, All, Option, none, some, arith,
}
use walite.Assoc.{
  Assoc, lookup, insert, All-lookup, All-insert, All-from_lookup, lookup-insert, length-insert_new,
  length-insert_old, insert-HasUniqueKeys,
}
use walite.Model.Message.{Message, with_notification_eligibility}
use walite.Store.Memory.{Memory, MemoryChat}
use walite.Store.Memory.Invariant.{IsMemory, IsChatEntry, IsMessageEntry}
use walite.Store.Stage.{
  Staging, chat_key, message_key, contains_key, contains_pair, has_room, stored_count,
}
use walite.Store.Stage.Places.{HasHome, IsStored, IsPlaced, IsNewChat, Stands}
use walite.Store.Write.{empty_chat, add_chats, store_message, store_messages}
use walite.Store.Write.Room.{Fits, insert-Fits, room-bound, absent_count-le}
use walite.Store.Write.Assembly.{IsAssembly, Houses, Houses-insert, replace-IsAssembly}

length-insert_le :
    (k : Bytes) (c : MemoryChat) (chats : Assoc MemoryChat)
    → length (insert k c chats) ≤ suc (length chats)
length-insert_le k c chats = elim (Option-cases (lookup k chats)) [
  | inl absent ↦ omega (arith, length-insert_new k c chats absent)
  | inr (d, there) ↦ omega (arith, length-insert_old k c d chats there)
]

none-some : {A : Type 0} {a : A} (o : Option A) → o ≡ none → o ≡ some a → ⊥
none-some o e f = cc

module _ (s : Memory) (new : List (Bytes × Bytes)) (v : IsMemory s)
    (room : has_room s new new ≡ true) where
  pub start-IsAssembly : IsAssembly s new s.chats
  start-IsAssembly = record {
    unique = v.unique;
    bounded = v.bounded;
    entries = v.entries;
    fits =
        All-from_lookup (λ e. Fits new e.0 e.1.messages) s.chats v.unique
          (λ k c there. omega (
            arith,
            absent_count-le k new c.messages,
            room-bound s new k v room,
            ap stored_count there,
          ));
    stored = λ k i h. h;
  }

  add_chat-IsAssembly :
      (key : Bytes) (chats : Assoc MemoryChat)
      → IsNewChat s key
      → IsAssembly s new chats
      → suc (length chats) ≤ s.max_chats
      → IsAssembly s new (insert key empty_chat chats)
  add_chat-IsAssembly key chats f a few = record {
    unique = insert-HasUniqueKeys key empty_chat chats a.unique;
    bounded = omega (arith, length-insert_le key empty_chat chats);
    entries =
        All-insert IsChatEntry key empty_chat chats a.entries (record {
          key_valid = f.1;
          unique = tt;
          bounded = omega arith;
          entries = tt;
          anchor = tt;
        });
    fits =
        All-insert (λ e. Fits new e.0 e.1.messages) key empty_chat chats a.fits
          (omega (arith, absent_count-le key new [], room-bound s new key v room));
    stored = λ k i h. still k i h (a.stored k i h);
  }
    where
      still :
          (k i : Bytes)
          → IsStored s.chats k i
          → IsStored chats k i
          → IsStored (insert key empty_chat chats) k i
      still k i (c, there, n, found) (d, at, m, here) = elim (Bool-cases (bytes_eq key k)) [
        | inl same ↦ absurd (
            none-some (lookup k s.chats)
              (sym (ap (λ t. lookup t s.chats) (bytes_eq-eq key k same)) ∙ f.0) there)
        | inr other ↦ (d, lookup-insert key k empty_chat chats ∙ rw other at, m, here)
      ]

  pub add_chats-IsAssembly :
      (keys : List Bytes) (chats : Assoc MemoryChat)
      → All (IsNewChat s) keys
      → IsAssembly s new chats
      → length chats + length keys ≤ s.max_chats
      → IsAssembly s new (add_chats keys chats)
  unfolding add_chats
  add_chats-IsAssembly [] chats f a few = a
  add_chats-IsAssembly (key ∷ keys) chats f a few =
      add_chats-IsAssembly keys (insert key empty_chat chats) f.1
        (add_chat-IsAssembly key chats f.0 a (omega arith))
        (omega (arith, length-insert_le key empty_chat chats))

pub add_chats-Houses :
    (keys : List Bytes) (chats : Assoc MemoryChat) (k : Bytes)
    → ((c : MemoryChat) × (lookup k chats ≡ some c)) ⊎ (contains_key k keys ≡ true)
    → (c : MemoryChat) × (lookup k (add_chats keys chats) ≡ some c)
unfolding add_chats
add_chats-Houses [] chats k (inl there) = there
add_chats-Houses [] chats k (inr e) = cc
add_chats-Houses (key ∷ keys) chats k h =
    add_chats-Houses keys (insert key empty_chat chats) k (next h)
  where
    next :
        ((c : MemoryChat) × (lookup k chats ≡ some c)) ⊎ (contains_key k (key ∷ keys) ≡ true)
        → ((c : MemoryChat) × (lookup k (insert key empty_chat chats) ≡ some c))
          ⊎ (contains_key k keys ≡ true)
    next (inl (c, there)) = elim (Bool-cases (bytes_eq key k)) [
      | inl same ↦ inl (empty_chat, lookup-insert key k empty_chat chats ∙ rw same)
      | inr other ↦ inl (c, lookup-insert key k empty_chat chats ∙ rw other there)
    ]
    next (inr e) = elim (Bool-cases (bytes_eq key k)) [
      | inl same ↦ inl (empty_chat, lookup-insert key k empty_chat chats ∙ rw same)
      | inr other ↦ inr (ground arith)
    ]

module _ (s : Memory) (g : Staging) where
  store_message-IsAssembly :
      (m : Message) (chats : Assoc MemoryChat) (c : MemoryChat)
      → Stands s g m
      → lookup (chat_key m) chats ≡ some c
      → IsAssembly s g.new_ids chats
      → IsAssembly s g.new_ids (store_message m chats)
  unfolding store_message with_notification_eligibility
  store_message-IsAssembly m chats c p there a =
      let e = All-lookup IsChatEntry (chat_key m) chats a.entries there in
      let kept = with_notification_eligibility m false in
      let f =
        insert-Fits g.new_ids (chat_key m) (message_key m) kept c.messages (absent-new p.1)
          (All-lookup (λ e. Fits g.new_ids e.0 e.1.messages) (chat_key m) chats a.fits there) in
      rw there (
        replace-IsAssembly s g.new_ids (chat_key m) c
          (record c { messages = insert (message_key m) kept c.messages }) chats a there
          (record {
            key_valid = e.key_valid;
            unique = insert-HasUniqueKeys (message_key m) kept c.messages e.unique;
            bounded = omega (arith, f);
            entries =
                All-insert (IsMessageEntry (chat_key m)) (message_key m) kept c.messages e.entries
                  (record {
                    chat = refl;
                    id = refl;
                    id_valid = p.0.id_valid;
                    sent = p.0.sent;
                    text_bounded = p.0.text_bounded;
                  });
            anchor = e.anchor;
          })
          f (λ i n h. more i n h))
    where
      absent-new :
          IsPlaced s g.new_ids (chat_key m) (message_key m)
          → lookup (message_key m) c.messages ≡ none
          → contains_pair (chat_key m) (message_key m) g.new_ids ≡ true
      absent-new (inr new) e = new
      absent-new (inl stored) e =
          let (d, at, n, found) = a.stored (chat_key m) (message_key m) stored in
          let same : d ≡ c = some-eq d (sym at ∙ there) in
          absurd (
            none-some (lookup (message_key m) c.messages) e
              (sym (ap (λ (x : MemoryChat). lookup (message_key m) x.messages) same) ∙ found))
        where
          some-eq : (x : MemoryChat) → some x ≡ some c → x ≡ c
          some-eq x e = cc

      more :
          (i : Bytes) (n : Message)
          → lookup i c.messages ≡ some n
          → (k : Message) × (lookup i
                (insert (message_key m) (with_notification_eligibility m false) c.messages)
              ≡ some k)
      more i n h = elim (Bool-cases (bytes_eq (message_key m) i)) [
        | inl same ↦ (
          with_notification_eligibility m false,
          lookup-insert (message_key m) i _ c.messages ∙ rw same,
        )
        | inr other ↦ (n, lookup-insert (message_key m) i _ c.messages ∙ rw other h)
      ]

  pub store_messages-IsAssembly :
      (ms : List Message) (chats : Assoc MemoryChat)
      → All (Stands s g) ms
      → Houses (HasHome s g.new_chats) chats
      → IsAssembly s g.new_ids chats
      → IsAssembly s g.new_ids (store_messages ms chats)
  unfolding store_messages store_message
  store_messages-IsAssembly [] chats p h a = a
  store_messages-IsAssembly (m ∷ ms) chats p h a =
      let (c, there) = h (chat_key m) p.0.2 in
      store_messages-IsAssembly ms (store_message m chats) p.1
        (Houses-insert (HasHome s g.new_chats) (chat_key m) _ chats h)
        (store_message-IsAssembly m chats c p.0 there a)
