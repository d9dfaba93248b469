-- ===== src/Service/Queue.antt =====
-- The bounded queue (internal/service/queue.go): a ring of envelopes that charges a byte budget. A
-- mutex makes each operation one step on the queue and its budget; `Put` and `Take`, which wait in a
-- `select`, are not modelled, but for the marks of a waiting producer.
pub mod Ring
pub mod Invariant
pub mod Refine
pub mod Drain
pub mod Bounded
pub mod Steps
use walite.Base.{
  ℕ, zero, suc, ◌+◌, ◌-◌, ◌%◌, ◌==◌, ℤ, pos, negsuc, Bool, true, false, ◌&&◌, ◌||◌, not, List, [],
  ◌∷◌, Result, ok, err, ltb, leb, length, get_elem?, get_or, set, replicate, if◌then◌else◌, Option,
  none, some,
}
use walite.Service.Failure.{
  Failure, invalid_weight, queue_full, queue_stopped, permit_released, queue_invariant,
}
use walite.Service.Budget.{Budget, Permit, positive, try_acquire, replace, release}

-- `envelope` and `lease`. The zero value has no value and a nil permit.
pub record Envelope {ℓ} (T : Type ℓ) : Type ℓ where
  pub value : Option T
  pub permit : Option ℕ

abbrev pub empty_slot {ℓ} : {T : Type ℓ} → Envelope T
empty_slot = record { value = none; permit = none }

-- `stopped` is also whether `stoppedCh` is closed; the waiter counts are 0 or 1.
pub record Queue {ℓ} (T : Type ℓ) : Type ℓ where
  pub storage : List (Envelope T)
  pub head : ℕ
  pub tail : ℕ
  pub count : ℕ
  pub reservations : ℕ
  pub stopped : Bool
  pub entry_waiters : ℕ
  pub byte_waiters : ℕ
  pub put_waiter : Bool
  pub budget : Budget
  pub space_wake : Bool
  pub not_empty_wake : Bool
  pub state_wake : Bool

pub record Reservation : Type 0 where
  pub permit : Option ℕ
  pub active : Bool

pub record Stats : Type 0 where
  pub entries : ℕ
  pub reservations : ℕ
  pub used_bytes : ℕ
  pub entry_waiters : ℕ
  pub byte_waiters : ℕ
  pub stopped : Bool

module _ {ℓ} {T : Type ℓ} where
  -- `entries <= 0`; the budget and the weigher are never nil.
  unfoldable pub new_bounded_queue : ℤ → Budget → Result Failure (Queue T)
  new_bounded_queue entries budget = elim (positive entries) [
    | err e ↦ err e
    | ok n ↦ ok (record {
      storage = replicate n empty_slot;
      head = 0;
      tail = 0;
      count = 0;
      reservations = 0;
      stopped = false;
      entry_waiters = 0;
      byte_waiters = 0;
      put_waiter = false;
      budget = budget;
      space_wake = false;
      not_empty_wake = false;
      state_wake = false;
    })
  ]

  abbrev pub is_full : Queue T → Bool
  is_full q = (q.count + q.reservations) == length q.storage

  -- The writes of `putReserved` and `commit` to the ring, with their signals.
  unfoldable pub enqueue : Queue T → T → ℕ → Queue T
  enqueue q value permit = record q {
    storage = set q.storage q.tail (record { value = some value; permit = some permit });
    tail = (q.tail + 1) % length q.storage;
    count = q.count + 1;
    not_empty_wake = q.not_empty_wake || q.count == 0;
    state_wake = true;
  }

  -- The lease, `none` for `(zero, false)`.
  unfoldable pub try_take : Queue T → Option (Envelope T) × Queue T
  try_take q = if q.count == 0 then (none, q) else (
    some (get_or q.storage q.head empty_slot),
    record q {
      storage = set q.storage q.head empty_slot;
      head = (q.head + 1) % length q.storage;
      count = q.count - 1;
      space_wake = true;
      state_wake = true;
    },
  )

  unfoldable pub close : Queue T → Queue T
  close q =
      if q.stopped
      then q
      else record q { stopped = true; space_wake = true; not_empty_wake = true; state_wake = true }

  -- `lease.Release`
  unfoldable pub release_lease : Budget → Envelope T → Budget × Option Failure
  release_lease b l = elim l.permit [ none ↦ (b, some permit_released) | some i ↦ release b i ]

  -- The loop of `drainAndRelease`; each round takes an entry, so the count is enough fuel.
  unfoldable pub drain_from : ℕ → ℕ → Queue T → ℕ × Queue T
  drain_from zero drained q = (drained, q)
  drain_from (suc fuel) drained q = elim (try_take q).0 [
    | none ↦ (drained, (try_take q).1)
    | some l ↦
        let taken = (try_take q).1 in
        drain_from fuel (drained + 1) (record taken { budget = (release_lease taken.budget l).0 })
  ]

  unfoldable pub drain_and_release : Queue T → ℕ × Queue T
  unfolding drain_from
  drain_and_release q = drain_from (suc q.count) 0 q

  unfoldable pub stats : Queue T → Stats
  stats q = record {
    entries = q.count;
    reservations = q.reservations;
    used_bytes = q.budget.used;
    entry_waiters = q.entry_waiters;
    byte_waiters = q.byte_waiters;
    stopped = q.stopped;
  }

  -- `tryReserveCapacity`
  unfoldable pub reserve_positive : Queue T → ℤ → Result Failure (Reservation × Queue T)
  reserve_positive q weight =
      if q.stopped
      then err queue_stopped
      else if is_full q
      then err queue_full
      else elim (try_acquire q.budget weight) [
        | err e ↦ err e
        | ok (i, b) ↦ ok (
          record { permit = some i; active = true },
          record q { budget = b; reservations = q.reservations + 1; state_wake = true },
        )
      ]

  unfoldable pub try_reserve_capacity : Queue T → ℤ → Result Failure (Reservation × Queue T)
  unfolding reserve_positive
  try_reserve_capacity q weight = elim (positive weight) [
    | err e ↦ err e
    | ok w ↦ reserve_positive q weight
  ]

  -- `release` of a reservation, with a permit and active.
  unfoldable pub release_active : Queue T → Reservation → ℕ → Queue T × Reservation × Option Failure
  release_active q r i =
      if q.reservations == 0
      then (q, r, some queue_invariant)
      else let (b, e) = release q.budget i in
        (
          record q {
            reservations = q.reservations - 1;
            space_wake = true;
            not_empty_wake = true;
            state_wake = true;
            budget = b;
          },
          record { permit = none; active = false },
          e,
        )

  unfoldable pub release_reservation :
      Queue T → Reservation → Queue T × Reservation × Option Failure
  unfolding release_active
  release_reservation q r = elim r.permit [
    | none ↦ (q, r, some permit_released)
    | some i ↦ if r.active then release_active q r i else (q, r, some permit_released)
  ]

  -- The error path of `TryPut` releases the permit and reports the first error.
  abbrev pub finish_put : ℕ → Queue T × Option Failure → Queue T × Option Failure
  finish_put i (q, none) = (q, none)
  finish_put i (q, some e) = (record q { budget = (release q.budget i).0 }, some e)

  unfoldable pub register_put_waiter : Queue T → Bool → Bool × Queue T
  register_put_waiter q entry = if q.put_waiter then (false, q) else (
    true,
    record q {
      put_waiter = true;
      entry_waiters = if entry then 1 else q.entry_waiters;
      byte_waiters = if entry then q.byte_waiters else 1;
      state_wake = true;
    },
  )

  unfoldable pub switch_put_waiter_to_entry : Queue T → Queue T
  switch_put_waiter_to_entry q = record q { byte_waiters = 0; entry_waiters = 1; state_wake = true }

  unfoldable pub clear_put_waiter : Queue T → Bool → Queue T
  clear_put_waiter q entry = record q {
    put_waiter = false;
    entry_waiters = if entry then 0 else q.entry_waiters;
    byte_waiters = if entry then q.byte_waiters else 0;
    state_wake = true;
  }

-- `weigh` is the client's; `none` stands for its error.
module _ {ℓ} {T : Type ℓ} (weigh : T → Option ℤ) where
  -- `weight, err := queue.weigh(value); if err != nil || weight <= 0`
  unfoldable pub weighed : T → Result Failure ℕ
  weighed value = elim (weigh value) [ none ↦ err invalid_weight | some z ↦ positive z ]

  -- `tryReserve` once the value is weighed.
  abbrev pub reserve_weighed : Budget → Result Failure ℕ → Result Failure (ℕ × Budget)
  reserve_weighed b (err e) = err e
  reserve_weighed b (ok w) = try_acquire b (pos w)

  unfoldable pub try_reserve : Queue T → T → Result Failure (ℕ × Budget)
  try_reserve q value = reserve_weighed q.budget (weighed value)

  -- `putReserved` behind the tests of the permit and the weight.
  unfoldable pub put_if_open : Queue T → T → ℕ → Queue T × Option Failure
  put_if_open q value i =
      if q.stopped
      then (q, some queue_stopped)
      else if is_full q
      then (q, some queue_full)
      else (enqueue q value i, none)

  -- The permit is out and has the weight of the value.
  unfoldable pub permit_fits : T → Permit → Bool
  permit_fits value p = elim (weighed value) [
    | err e ↦ false
    | ok w ↦ not p.released && w == p.weight
  ]

  -- A nil permit, or one of another budget, has no name here.
  unfoldable pub permit_accepted : T → Option Permit → Bool
  permit_accepted value none = false
  permit_accepted value (some p) = permit_fits value p

  unfoldable pub put_reserved : Queue T → T → ℕ → Queue T × Option Failure
  put_reserved q value i =
      if permit_accepted value (get_elem? q.budget.permits i)
      then put_if_open q value i
      else (q, some invalid_weight)

  unfoldable pub put_or_release : Queue T → T → ℕ → Queue T × Option Failure
  put_or_release q value i = finish_put i (put_reserved q value i)

  -- `TryPut` on a queue that is not stopped, once it has tried to reserve.
  abbrev pub put_granted : Queue T → T → Result Failure (ℕ × Budget) → Queue T × Option Failure
  put_granted q value (err e) = (q, some e)
  put_granted q value (ok (i, b)) = put_or_release (record q { budget = b }) value i

  unfoldable pub try_put : Queue T → T → Queue T × Option Failure
  try_put q value =
      if q.stopped then (q, some queue_stopped) else put_granted q value (try_reserve q value)

  -- `commit` behind its first tests.
  unfoldable pub commit_active :
      Queue T → Reservation → ℕ → T → Queue T × Reservation × Option Failure
  unfolding weighed
  commit_active q r i value = elim (weighed value) [
    | err e ↦ (q, r, some e)
    | ok w ↦
        if q.reservations == 0 || leb (length q.storage) q.count
        then (q, r, some queue_invariant)
        else elim (replace q.budget i (pos w)) [
          | err e ↦ (q, r, some e)
          | ok (j, b) ↦ (
            enqueue (record q { budget = b; reservations = q.reservations - 1 }) value j,
            record { permit = none; active = false },
            none,
          )
        ]
  ]

  unfoldable pub commit : Queue T → Reservation → T → Queue T × Reservation × Option Failure
  unfolding commit_active
  commit q r value = elim r.permit [
    | none ↦ (q, r, some permit_released)
    | some i ↦ if r.active then commit_active q r i value else (q, r, some permit_released)
  ]
