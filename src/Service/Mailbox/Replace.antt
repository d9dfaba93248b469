-- ===== src/Service/Mailbox/Replace.antt =====
-- What `Replace` leaves in the slots and in the budget.
use walite.Base.{
  ◌≤◌, ◌<◌, ℕ, set, ◌+◌, ◌≡◌, ◌≢◌, ℤ, true, false, ok, length, Option, none, some, ◌⊎◌,
}
use walite.Service.Failure.{Failure}
use walite.Service.Budget.{Budget}
use walite.Service.Budget.Settle.{Gives}
use walite.Service.Queue.{weighed}
use walite.Service.Mailbox.{Slot, Mailbox, slot_at, max_version}
use walite.Service.Mailbox.Slots.{IsMailbox}

module _ {κ} {V : Type κ} where
  -- The slot `new` is the slot `old` with the value, the permit and the mark; its version is the
  -- next one, and the last version stays.
  pub record IsFilled (old new : Slot V) (value : V) (permit : ℕ) : Type κ where
    pub value_there : new.value ≡ some value
    pub permit_there : new.permit ≡ some permit
    pub marked : new.dirty ≡ true
    pub next : old.version < max_version → new.version ≡ old.version + 1
    pub last : max_version ≤ old.version → new.version ≡ old.version

module _ {ℓ κ} {K : Type ℓ} {V : Type κ} where
  -- A successful `Replace`: the slot of the key alone is filled, and its permit is given out for the
  -- weight of the value, instead of the one that it held.
  pub record Replaced (weigh : V → Option ℤ) (at : Option ℕ) (m : Mailbox K V) (value : V)
      (r : Mailbox K V) : Type (ℓ ⊔ κ) where
    pub index : ℕ
    pub found : at ≡ some index
    pub inside : index < length m.slots
    pub permit : ℕ
    pub weight : ℕ
    pub charged : weighed weigh value ≡ ok weight
    pub slot : Slot V
    pub slots : r.slots ≡ set m.slots index slot
    pub filled_there : IsFilled (slot_at m index) slot value permit
    pub given : Gives m.budget (slot_at m index).permit weight (permit, r.budget)
    pub keys : r.keys ≡ m.keys
    pub running : (m.stopped ≡ false) × (r.stopped ≡ false)

  -- What `Replace` left: the mailbox as it was, or with the value.
  pub record Stored (weigh : V → Option ℤ) (at : Option ℕ) (m : Mailbox K V) (value : V)
      (r : Mailbox K V × Option Failure) : Type (ℓ ⊔ κ) where
    pub valid : IsMailbox r.0
    pub effect : (r.1 ≢ none) × (r.0 ≡ m) ⊎ (r.1 ≡ none) × Replaced weigh at m value r.0
