-- ===== src/Store/Write/Assembly.antt =====
-- What holds of the chats while `writeBatch` stores what it has staged.
use walite.Base.{
  ◌≤◌, ◌≡◌, sym, ap, ◌∙◌, subst, Bool-cases, inl, inr, List, [], ◌∷◌, Bytes, bytes_eq, bytes_eq-eq,
  length, All, Option, some, if◌then◌else◌, ltb,
}
use walite.Assoc.{
  Assoc, lookup, insert, HasUniqueKeys, All-lookup, All-insert, lookup-insert, length-insert_old,
  insert-HasUniqueKeys,
}
use walite.Model.Chat.{Chat}
use walite.Model.Message.{Message}
use walite.Store.Memory.{Memory, MemoryChat, display_for}
use walite.Store.Memory.Invariant.{IsChatEntry}
use walite.Store.Memory.Keeps.{with_chat-IsChatEntry}
use walite.Store.Stage.Places.{IsStored}
use walite.Store.Write.{or_empty, store_chat, store_chats}
use walite.Store.Write.Room.{Fits}

pub record IsAssembly (s : Memory) (new : List (Bytes × Bytes)) (chats : Assoc MemoryChat)
    : Type 0 where
  pub unique : HasUniqueKeys chats
  pub bounded : length chats ≤ s.max_chats
  pub entries : All IsChatEntry chats
  pub fits : All (λ e. Fits new e.0 e.1.messages) chats
  pub stored : (k i : Bytes) → IsStored s.chats k i → IsStored chats k i

-- Each of the keys has its chat.
abbrev pub Houses : (Bytes → Type 0) → Assoc MemoryChat → Type 0
Houses P chats = (k : Bytes) → P k → (c : MemoryChat) × (lookup k chats ≡ some c)

pub Houses-insert :
    (P : Bytes → Type 0) (j : Bytes) (d : MemoryChat) (chats : Assoc MemoryChat)
    → Houses P chats
    → Houses P (insert j d chats)
Houses-insert P j d chats h k p = elim (Bool-cases (bytes_eq j k)) [
  | inl e ↦ (d, lookup-insert j k d chats ∙ rw e)
  | inr e ↦ let (c, there) = h k p in (c, lookup-insert j k d chats ∙ rw e there)
]

-- A chat takes the place of one whose messages it has.
module _ (s : Memory) (new : List (Bytes × Bytes)) (key : Bytes) (old c : MemoryChat)
    (chats : Assoc MemoryChat) where
  pub replace-IsAssembly :
      IsAssembly s new chats
      → lookup key chats ≡ some old
      → IsChatEntry (key, c)
      → Fits new key c.messages
      → ((i : Bytes) (n : Message)
          → lookup i old.messages ≡ some n
          → (m : Message) × (lookup i c.messages ≡ some m))
      → IsAssembly s new (insert key c chats)
  replace-IsAssembly v there e f more = record {
    unique = insert-HasUniqueKeys key c chats v.unique;
    bounded =
        subst (λ n. n ≤ s.max_chats) (sym (length-insert_old key c old chats there)) v.bounded;
    entries = All-insert IsChatEntry key c chats v.entries e;
    fits = All-insert (λ e. Fits new e.0 e.1.messages) key c chats v.fits f;
    stored = λ k i h. still k i (v.stored k i h);
  }
    where
      still : (k i : Bytes) → IsStored chats k i → IsStored (insert key c chats) k i
      still k i (d, at, n, found) = elim (Bool-cases (bytes_eq key k)) [
        | inl same ↦
            let here : d ≡ old =
              some-eq d old
                (sym at ∙ ap (λ t. lookup t chats) (sym (bytes_eq-eq key k same)) ∙ there) in
            let (m, kept) =
              more i n (sym (ap (λ (x : MemoryChat). lookup i x.messages) here) ∙ found) in
            (c, lookup-insert key k c chats ∙ rw same, m, kept)
        | inr other ↦ (d, lookup-insert key k c chats ∙ rw other at, n, found)
      ]
        where
          some-eq : (x y : MemoryChat) → some x ≡ some y → x ≡ y
          some-eq x y e = cc

or_empty-there : (o : Option MemoryChat) (c : MemoryChat) → o ≡ some c → or_empty o ≡ c
or_empty-there o c e = ap or_empty e

store_chat-IsAssembly :
    (s : Memory) (new : List (Bytes × Bytes)) (key : Bytes) (chat : Chat) (chats : Assoc MemoryChat)
    (c : MemoryChat)
    → IsAssembly s new chats
    → lookup key chats ≡ some c
    → IsAssembly s new (store_chat s key chat chats)
unfolding store_chat
store_chat-IsAssembly s new key chat chats c v there =
    let quality = (display_for s.display chat.id.value).quality in
    let showed : MemoryChat = record c {
      chat = chat;
      display_quality = if ltb c.display_quality quality then quality else c.display_quality;
    } in
    rw there (
      replace-IsAssembly s new key c showed chats v there
        (with_chat-IsChatEntry key c chat showed.display_quality
          (All-lookup IsChatEntry key chats v.entries there))
        (All-lookup (λ e. Fits new e.0 e.1.messages) key chats v.fits there) (λ i n h. (n, h)))

pub store_chats-IsAssembly :
    (s : Memory) (new : List (Bytes × Bytes)) (P : Bytes → Type 0) (cs : Assoc Chat)
    (chats : Assoc MemoryChat)
    → All (λ (e : Bytes × Chat). P e.0) cs
    → IsAssembly s new chats
    → Houses P chats
    → IsAssembly s new (store_chats s cs chats) × Houses P (store_chats s cs chats)
unfolding store_chats store_chat
store_chats-IsAssembly s new P [] chats p v h = (v, h)
store_chats-IsAssembly s new P ((key, c) ∷ cs) chats p v h =
    let (old, there) = h key p.0 in
    store_chats-IsAssembly s new P cs (store_chat s key c chats) p.1
      (store_chat-IsAssembly s new key c chats old v there) (Houses-insert P key _ chats h)
