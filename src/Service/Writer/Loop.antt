-- ===== src/Service/Writer/Loop.antt =====
-- The writer's last loop, over the chats of a batch.
use walite.Base.{
  ℕ, suc, ◌≤◌, ◌≡◌, refl, ◌∙◌, pos, ◌≤ℤ◌, Bool-cases, inl, inr, List, [], ◌∷◌, Bytes, bytes_eq,
  bytes_eq_refl, length, All, All-imp, some, ok,
}
use walite.Assoc.{lookup}
use walite.Model.Identifier.{ChatId}
use walite.Model.Anchor.{validate_write_origin}
use walite.Model.Retention.{max_retention_snapshot_summaries}
use walite.SyncPolicy.{Policy, validate_policy}
use walite.Store.Memory.{Memory, MemoryChat, or_return}
use walite.Store.Memory.Invariant.{IsMemory}
use walite.Service.Writer.{Round, prune_chat, prune_chats}
use walite.Service.Writer.Prune.{Runs, prune_chat-bounded}
use walite.Service.Writer.Batch.{prune_chat-IsMemory}

abbrev pub HasChat : Memory → Bytes → Type 0
HasChat s k = (c : MemoryChat) × (lookup k s.chats ≡ some c)

-- The chat is within the policy.
abbrev pub IsBounded : Policy → Memory → Bytes → Type 0
IsBounded p s k =
    (c : MemoryChat) × (lookup k s.chats ≡ some c)
    × (pos (length c.messages) ≤ℤ p.messages_per_chat)

module _ (p : Policy) (limit : ℕ) (rounds : ℕ → Round) (origin : ℕ)
    (policy_valid : validate_policy p ≡ ok tt) (runs : (i : ℕ) → Runs (rounds i))
    (origin_valid : validate_write_origin origin ≡ ok tt)
    (enough : max_retention_snapshot_summaries ≤ limit) where
  record Rounded (s t : Memory) (ids : List ChatId) : Type 0 where
    pub bounded : All (λ (i : ChatId). IsBounded p t i.value) ids
    pub keeps : (k : Bytes) → IsBounded p s k → IsBounded p t k
    pub stored : (k : Bytes) → HasChat s k → HasChat t k

  prune_chat-Rounded :
      (s : Memory) (index : ℕ) (id : ChatId)
      → IsMemory s
      → HasChat s id.value
      → ((prune_chat p limit (rounds index) origin s id).1 ≡ ok tt)
        × Rounded s (prune_chat p limit (rounds index) origin s id).0 (id ∷ [])
  prune_chat-Rounded s index id v (c, there) =
      let (after, done, small, chats) =
        prune_chat-bounded p limit (rounds index) origin s id v there policy_valid (runs index)
          origin_valid enough in
      let t = (prune_chat p limit (rounds index) origin s id).0 in
      let here : lookup id.value t.chats ≡ some after =
        chats id.value ∙ rw (bytes_eq_refl id.value) in
      (
        done,
        record {
          bounded = ((after, here, small), tt);
          keeps = λ k h. elim (Bool-cases (bytes_eq id.value k)) [
            | inl same ↦ (after, chats k ∙ rw same, small)
            | inr other ↦ (h.0, chats k ∙ rw other h.1, h.2)
          ];
          stored = λ k h. elim (Bool-cases (bytes_eq id.value k)) [
            | inl same ↦ (after, chats k ∙ rw same)
            | inr other ↦ (h.0, chats k ∙ rw other h.1)
          ];
        },
      )

  prune_chats-Rounded :
      (s : Memory) (index : ℕ) (ids : List ChatId)
      → IsMemory s
      → All (λ (i : ChatId). HasChat s i.value) ids
      → ((prune_chats p limit rounds origin s index ids).1 ≡ ok tt)
        × Rounded s (prune_chats p limit rounds origin s index ids).0 ids
  unfolding prune_chats or_return
  prune_chats-Rounded s index [] v h =
      (refl, record { bounded = tt; keeps = λ k x. x; stored = λ k x. x })
  prune_chats-Rounded s index (id ∷ ids) v h =
      let first = prune_chat p limit (rounds index) origin s id in
      let (done, one) = prune_chat-Rounded s index id v h.0 in
      let (rest, all) =
        prune_chats-Rounded first.0 (suc index) ids
          (prune_chat-IsMemory p limit (rounds index) origin s id v)
          (All-imp (λ (i : ChatId). HasChat s i.value) (λ (i : ChatId). HasChat first.0 i.value)
            (λ i x. one.stored i.value x) ids h.1) in
      rw done (
        rest,
        record {
          bounded = (all.keeps id.value one.bounded.0, all.bounded);
          keeps = λ k x. all.keeps k (one.keeps k x);
          stored = λ k x. all.stored k (one.stored k x);
        },
      )

  -- For chats of a valid store, a valid policy and origin, rounds whose contexts run and whose
  -- clocks are set, and a snapshot limit of at least 551, the writer's loop over the chats of a
  -- batch succeeds, and at its end every one of them is in the store with at most
  -- `messages_per_chat` messages.
  pub prune_chats-IsBounded :
      (s : Memory) (ids : List ChatId)
      → IsMemory s
      → All (λ (i : ChatId). HasChat s i.value) ids
      → ((prune_chats p limit rounds origin s 0 ids).1 ≡ ok tt)
        × All
            (λ (i : ChatId). IsBounded p (prune_chats p limit rounds origin s 0 ids).0 i.value)
            ids
  prune_chats-IsBounded s ids v h =
      let (done, all) = prune_chats-Rounded s 0 ids v h in (done, all.bounded)
