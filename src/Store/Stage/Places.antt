-- ===== src/Store/Stage/Places.antt =====
-- What holds of the staged messages: each is valid, is stored or counted as new, and has a chat.
use walite.Base.{
  ◌≡◌, true, Bool-cases, Option-cases, inl, inr, ◌⊎◌, List, [], ◌∷◌, Bytes, bytes_eq_refl, All,
  Option, none, some, arith,
}
use walite.Assoc.{Assoc, lookup}
use walite.Model.Identifier.Laws.{IsIdentifier}
use walite.Model.Message.{Message}
use walite.Store.Memory.{Memory, MemoryChat}
use walite.Store.Memory.Invariant.{IsMessageOf}
use walite.Store.Stage.{
  Staging, chat_key, message_key, has_keys, stage, contains_key, add_key, contains_pair, add_pair,
  add_if_new,
}

-- The chat is in the store, or among the new ones.
abbrev pub HasHome : Memory → List Bytes → Bytes → Type 0
HasHome s new k = ((c : MemoryChat) × (lookup k s.chats ≡ some c)) ⊎ (contains_key k new ≡ true)

abbrev pub IsStored : Assoc MemoryChat → Bytes → Bytes → Type 0
IsStored chats k i =
    (c : MemoryChat) × (lookup k chats ≡ some c) × (n : Message) × (lookup i c.messages ≡ some n)

abbrev pub IsPlaced : Memory → List (Bytes × Bytes) → Bytes → Bytes → Type 0
IsPlaced s new k i = IsStored s.chats k i ⊎ (contains_pair k i new ≡ true)

abbrev pub IsWhole : Message → Type 0
IsWhole m = IsMessageOf (chat_key m) m

abbrev pub Stands : Memory → Staging → Message → Type 0
Stands s g m =
    IsWhole m
    × IsPlaced s g.new_ids (chat_key m) (message_key m)
    × HasHome s g.new_chats (chat_key m)

abbrev pub IsNewChat : Memory → Bytes → Type 0
IsNewChat s k = (lookup k s.chats ≡ none) × IsIdentifier k

pub record IsStaging (s : Memory) (g : Staging) : Type 0 where
  pub staged : All (Stands s g) g.staged
  pub fresh : All (IsNewChat s) g.new_chats

-- What is placed and at home stays so as chats and identifiers are added.
pub contains_key-add_key :
    (k j : Bytes) (ks : List Bytes)
    → contains_key k ks ≡ true
    → contains_key k (add_key j ks) ≡ true
contains_key-add_key k j ks h = elim (Bool-cases (contains_key j ks)) [
  | inl e ↦ rw e h
  | inr e ↦ rw (e, h) (ground arith)
]

pub contains_key-add_key_self : (k : Bytes) (ks : List Bytes) → contains_key k (add_key k ks) ≡ true
contains_key-add_key_self k ks = elim (Bool-cases (contains_key k ks)) [
  | inl e ↦ rw (e, e)
  | inr e ↦ rw (e, bytes_eq_refl k)
]

pub contains_pair-add_pair :
    (k i j h : Bytes) (ps : List (Bytes × Bytes))
    → contains_pair k i ps ≡ true
    → contains_pair k i (add_pair j h ps) ≡ true
contains_pair-add_pair k i j h ps e = elim (Bool-cases (contains_pair j h ps)) [
  | inl f ↦ rw f e
  | inr f ↦ rw (f, e) (ground arith)
]

pub contains_pair-add_pair_self :
    (k i : Bytes) (ps : List (Bytes × Bytes)) → contains_pair k i (add_pair k i ps) ≡ true
contains_pair-add_pair_self k i ps = elim (Bool-cases (contains_pair k i ps)) [
  | inl f ↦ rw (f, f)
  | inr f ↦ rw (f, bytes_eq_refl k, bytes_eq_refl i)
]

pub HasHome-add :
    (s : Memory) (k j : Bytes) (o : Option MemoryChat) (ks : List Bytes)
    → HasHome s ks k
    → HasHome s (add_if_new j o ks) k
HasHome-add s k j o ks (inl there) = inl there
HasHome-add s k j none ks (inr e) = inr (contains_key-add_key k j ks e)
HasHome-add s k j (some c) ks (inr e) = inr e

pub HasHome-self :
    (s : Memory) (k : Bytes) (ks : List Bytes) → HasHome s (add_if_new k (lookup k s.chats) ks) k
HasHome-self s k ks = elim (Option-cases (lookup k s.chats)) [
  | inl absent ↦ inr (rw absent (contains_key-add_key_self k ks))
  | inr there ↦ inl there
]

pub IsNewChat-add :
    (s : Memory) (k : Bytes) (ks : List Bytes)
    → IsIdentifier k
    → All (IsNewChat s) ks
    → All (IsNewChat s) (add_if_new k (lookup k s.chats) ks)
IsNewChat-add s k ks valid h = elim (Option-cases (lookup k s.chats)) [
  | inl absent ↦ elim (Bool-cases (contains_key k ks)) [
    | inl e ↦ rw (absent, e) h
    | inr e ↦ rw (absent, e) ((absent, valid), h)
  ]
  | inr (c, there) ↦ rw there h
]

pub All-stage {κ} :
    (P : Message → Type κ) (m : Message) (ms : List Message) → P m → All P ms → All P (stage m ms)
unfolding stage
All-stage P m [] p h = (p, tt)
All-stage P m (n ∷ ms) p h = elim (Bool-cases (has_keys (chat_key m) (message_key m) n)) [
  | inl e ↦ rw e (p, h.1)
  | inr e ↦ rw e (h.0, All-stage P m ms p h.1)
]
