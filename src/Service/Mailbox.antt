-- ===== src/Service/Mailbox.antt =====
-- The mailbox of fixed keys (internal/service/mailbox.go): a slot for each key holds the latest value
-- and the permit of its bytes. A mutex makes each operation one step on the mailbox and its budget.
pub mod Slots
pub mod Replace
use walite.Base.{
  ℕ, suc, zero, ◌+◌, ◌-◌, ◌^◌, ℤ, pos, Bool, true, false, ◌||◌, ◌&&◌, not, List, [], ◌∷◌, Result,
  ok, err, ltb, length, get_or, set, replicate, if◌then◌else◌, Option, none, some,
}
use walite.Service.Failure.{Failure, invalid_weight, queue_stopped, unknown_mailbox_key}
use walite.Service.Budget.{Budget, try_acquire, replace, release}
use walite.Service.Queue.{Envelope, weighed, release_lease}

pub record Slot {ℓ} (V : Type ℓ) : Type ℓ where
  pub value : Option V
  pub permit : Option ℕ
  pub version : ℕ
  pub dirty : Bool

-- The zero value.
abbrev pub zero_slot {ℓ} : {V : Type ℓ} → Slot V
zero_slot = record { value = none; permit = none; version = 0; dirty = false }

pub record Mailbox {ℓ κ} (K : Type ℓ) (V : Type κ) : Type (ℓ ⊔ κ) where
  pub keys : List K
  pub slots : List (Slot V)
  pub budget : Budget
  pub stopped : Bool
  pub wake : Bool

-- `same` is the comparison of the keys. The map `index` is the position of a key among the keys.
module _ {ℓ} {K : Type ℓ} (same : K → K → Bool) where
  unfoldable pub index_of : List K → K → Option ℕ
  index_of [] key = none
  index_of (k ∷ keys) key =
      if same k key
      then some 0
      else elim (index_of keys key) [ none ↦ none | some i ↦ some (suc i) ]

  unfoldable pub contains : List K → K → Bool
  contains [] key = false
  contains (k ∷ keys) key = same k key || contains keys key

  unfoldable pub repeats : List K → Bool
  repeats [] = false
  repeats (k ∷ keys) = contains keys k || repeats keys

  -- The budget and the weigher are never nil.
  unfoldable pub new_fixed_mailbox {κ} :
      {V : Type κ} → List K → Budget → Result Failure (Mailbox K V)
  new_fixed_mailbox [] budget = err invalid_weight
  new_fixed_mailbox (k ∷ keys) budget =
      if repeats (k ∷ keys)
      then err unknown_mailbox_key
      else ok (record {
        keys = k ∷ keys;
        slots = replicate (suc (length keys)) zero_slot;
        budget = budget;
        stopped = false;
        wake = false;
      })

abbrev pub max_version : ℕ
max_version = 2 ^ 64 - 1

-- A slot without a permit acquires one, another replaces its own.
abbrev pub acquire_for : Budget → Option ℕ → ℕ → Result Failure (ℕ × Budget)
acquire_for b none weight = try_acquire b (pos weight)
acquire_for b (some i) weight = replace b i (pos weight)

module _ {κ} {V : Type κ} where
  abbrev pub filled : Slot V → V → ℕ → Slot V
  filled slot value permit = record {
    value = some value;
    permit = some permit;
    version = if ltb slot.version max_version then slot.version + 1 else slot.version;
    dirty = true;
  }

  abbrev pub cleared : Slot V → Slot V
  cleared slot = record slot { value = none; permit = none; dirty = false }

  abbrev pub has_permit : Slot V → Bool
  has_permit slot = elim slot.permit [ none ↦ false | some i ↦ true ]

  abbrev pub put_back : Slot V → ℕ × Budget × List (Slot V) → ℕ × Budget × List (Slot V)
  put_back slot (n, b, slots) = (n, b, slot ∷ slots)

  abbrev pub count_one : ℕ × Budget × List (Slot V) → ℕ × Budget × List (Slot V)
  count_one (n, b, slots) = (n + 1, b, slots)

  -- The loop of `drainAndRelease`: how many were drained, the budget and the slots.
  unfoldable pub drain_slots : Budget → List (Slot V) → ℕ × Budget × List (Slot V)
  drain_slots b [] = (0, b, [])
  drain_slots b (slot ∷ slots) = elim slot.permit [
    | none ↦ put_back slot (drain_slots b slots)
    | some i ↦ put_back (cleared slot) (count_one (drain_slots (release b i).0 slots))
  ]

module _ {ℓ κ} {K : Type ℓ} {V : Type κ} where
  abbrev pub slot_at : Mailbox K V → ℕ → Slot V
  slot_at m i = get_or m.slots i zero_slot

  -- `Replace` once it has asked for a permit.
  abbrev pub store_granted :
      Mailbox K V → ℕ → V → Result Failure (ℕ × Budget) → Mailbox K V × Option Failure
  store_granted m i value (err e) = (m, some e)
  store_granted m i value (ok (j, b)) = (
    record m { slots = set m.slots i (filled (slot_at m i) value j); budget = b; wake = true },
    none,
  )

  abbrev pub store_weighed : Mailbox K V → ℕ → V → Result Failure ℕ → Mailbox K V × Option Failure
  store_weighed m i value (err e) = (m, some e)
  store_weighed m i value (ok weight) =
      store_granted m i value (acquire_for m.budget (slot_at m i).permit weight)

  abbrev pub store_at : (V → Option ℤ) → Mailbox K V → V → Option ℕ → Mailbox K V × Option Failure
  store_at weigh m value none = (m, some unknown_mailbox_key)
  store_at weigh m value (some i) =
      if m.stopped then (m, some queue_stopped) else store_weighed m i value (weighed weigh value)

  -- `Replace`
  unfoldable pub replace_value :
      (K → K → Bool) → (V → Option ℤ) → Mailbox K V → K → V → Mailbox K V × Option Failure
  replace_value same weigh m key value = store_at weigh m value (index_of same m.keys key)

  -- The loop of `TakeDirty`: the key, the lease and the version of the first dirty slot.
  unfoldable pub take_dirty_from :
      List K → List (Slot V) → Option (K × Envelope V × ℕ) × List (Slot V)
  take_dirty_from (key ∷ keys) (slot ∷ slots) =
      let rest = take_dirty_from keys slots in
      if not slot.dirty || not (has_permit slot) then (rest.0, slot ∷ rest.1) else (
        some (key, record { value = slot.value; permit = slot.permit }, slot.version),
        cleared slot ∷ slots,
      )
  take_dirty_from [] slots = (none, slots)
  take_dirty_from (key ∷ keys) [] = (none, [])

  unfoldable pub take_dirty : Mailbox K V → Option (K × Envelope V × ℕ) × Mailbox K V
  take_dirty m =
      let (taken, slots) = take_dirty_from m.keys m.slots in (taken, record m { slots = slots })

  unfoldable pub close_mailbox : Mailbox K V → Mailbox K V
  close_mailbox m = if m.stopped then m else record m { stopped = true; wake = true }

  unfoldable pub drain_mailbox : Mailbox K V → ℕ × Mailbox K V
  drain_mailbox m =
      let (n, b, slots) = drain_slots m.budget m.slots in
      (n, record m { budget = b; slots = slots })
