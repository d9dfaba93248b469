-- ===== src/Tests/Queueing.antt =====
-- The byte budget and the queue (internal/service/budget.go, queue.go) with a weigher that charges a
-- number its own value.
use walite.Base.{
  inl, inr, ℕ, ◌+◌, ◌≤◌, ◌<◌, ◌≡◌, refl, ◌⊎◌, ◌↔◌, ℤ, pos, true, false, List, [], ◌∷◌, Option, none,
  some, ok, is_ok, arith,
}
use walite.Service.Failure.{permit_released}
use walite.Service.Budget.{
  Budget, positive, new_byte_budget, try_acquire, replace, release, acquire_positive,
  replace_positive, replace_permit, release_permit,
}
use walite.Service.Budget.Invariant.{IsBudget, live}
use walite.Service.Budget.Steps.{
  Call, acquires, replaces, releases, run, step, run-new-IsBudget, try_acquire_iff, release_twice,
}
use walite.Service.Queue.{
  Queue, Envelope, empty_slot, new_bounded_queue, try_take, try_put, drain_and_release, try_reserve,
  weighed, put_or_release, put_reserved, permit_accepted, permit_fits, put_if_open, enqueue,
}
use walite.Service.Mailbox.{Mailbox, zero_slot, drain_mailbox}
use walite.Service.Mailbox.Slots.{IsMailbox, Emptied, drain_mailbox-Emptied}
use walite.Service.Queue.Bounded.{IsBounded}
use walite.Service.Queue.Steps.{created, stepped, puts, Reachable-IsBounded}
use walite.Service.Queue.Invariant.{IsQueue, contents}
use walite.Service.Queue.Refine.{Put, try_put-Put}
use walite.Service.Queue.Drain.{try_take-oldest, Drained, drain_and_release-Drained}

abbrev weigh : ℕ → Option ℤ
weigh n = some (pos n)

-- Five of ten bytes are out; the second permit was returned.
abbrev half_used : Budget
half_used = record {
  capacity = 10;
  used = 5;
  permits = record { weight = 5; released = false } ∷ record { weight = 3; released = true } ∷ [];
  wake = true;
  state_wake = false;
  waiter = false;
}

abbrev unused : Budget
unused = record {
  capacity = 10;
  used = 0;
  permits = [];
  wake = false;
  state_wake = false;
  waiter = false;
}

-- The one entry stands in the last slot of three.
abbrev one_entry : Queue ℕ
one_entry = record {
  storage = empty_slot ∷ empty_slot ∷ record { value = some 5; permit = some 0 } ∷ [];
  head = 2;
  tail = 0;
  count = 1;
  reservations = 1;
  stopped = false;
  entry_waiters = 0;
  byte_waiters = 0;
  put_waiter = false;
  budget = half_used;
  space_wake = false;
  not_empty_wake = false;
  state_wake = false;
}

half_used-IsBudget : IsBudget half_used
half_used-IsBudget = record {
  accounted = refl;
  bounded = omega arith;
  weighted = (omega arith, (omega arith, tt));
}

one_entry-IsQueue : IsQueue one_entry
one_entry-IsQueue = record { head_in = omega arith; tail_at = refl; within = omega arith }

abbrev calls : List Call
calls = acquires (pos 5) ∷ acquires (pos 6) ∷ replaces 0 (pos 7) ∷ releases 1 ∷ releases 1 ∷ []

unused-new : new_byte_budget (pos 10) ≡ ok unused
unfolding new_byte_budget positive
unused-new = refl

run-calls : (run unused calls).used ≡ 0
unfolding run step try_acquire positive acquire_positive replace replace_positive replace_permit
    release release_permit
run-calls = refl

run-new-IsBudget_example : IsBudget (run unused calls)
run-new-IsBudget_example = run-new-IsBudget (pos 10) unused calls unused-new

try_acquire_iff_example :
    (is_ok (try_acquire half_used (pos 5)) ≡ true) ↔ ((0 < 5) × (live half_used.permits + 5 ≤ 10))
try_acquire_iff_example = try_acquire_iff half_used 5 half_used-IsBudget

abbrev returned : Budget
returned = record half_used {
  used = 0;
  permits = record { weight = 5; released = true } ∷ record { weight = 3; released = true } ∷ [];
}

release-half_used : release half_used 0 ≡ (returned, none)
unfolding release release_permit
release-half_used = refl

release_twice_example : release returned 0 ≡ (returned, some permit_released)
release_twice_example = release_twice half_used returned 0 release-half_used

try_put-Put_example : Put weigh one_entry 4 (try_put weigh one_entry 4)
try_put-Put_example = try_put-Put weigh one_entry 4 one_entry-IsQueue half_used-IsBudget

try_take-oldest_example :
    (contents one_entry ≡ []) × (try_take one_entry ≡ (none, one_entry))
    ⊎ ((l : Envelope ℕ) × ((q' : Queue ℕ) × ((try_take one_entry ≡ (some l, q'))
            × (contents one_entry ≡ l ∷ contents q')
            × IsQueue q')))
try_take-oldest_example = try_take-oldest one_entry one_entry-IsQueue

drain_and_release-Drained_example :
    Drained (contents one_entry) half_used 1 (drain_and_release one_entry)
drain_and_release-Drained_example =
    drain_and_release-Drained one_entry one_entry-IsQueue half_used-IsBudget

abbrev no_entries : Queue ℕ
no_entries = record one_entry {
  storage = empty_slot ∷ empty_slot ∷ [];
  head = 0;
  count = 0;
  reservations = 0;
  budget = unused;
}

no_entries-new : new_bounded_queue (pos 2) unused ≡ ok no_entries
unfolding new_bounded_queue positive
no_entries-new = refl

unused-IsBudget : IsBudget unused
unused-IsBudget = record { accounted = refl; bounded = omega arith; weighted = tt }

-- A put on a new queue, and one that the second of its two slots takes.
abbrev filled_twice : Queue ℕ
filled_twice = (try_put weigh (try_put weigh no_entries 4).0 6).0

Reachable-IsBounded_example : IsBounded 2 filled_twice
Reachable-IsBounded_example = Reachable-IsBounded weigh 2 (
    stepped _ _
      (stepped _ _ (created unused no_entries unused-IsBudget no_entries-new) (puts no_entries 4))
      (puts (try_put weigh no_entries 4).0 6))

filled_twice-count : filled_twice.count ≡ 2
unfolding try_put try_reserve weighed positive try_acquire acquire_positive put_or_release
    put_reserved permit_accepted permit_fits put_if_open enqueue
filled_twice-count = refl

-- The first key has a value of five bytes that was not taken.
abbrev two_keys : Mailbox ℕ ℕ
two_keys = record {
  keys = 11 ∷ 12 ∷ [];
  slots = record { value = some 5; permit = some 0; version = 1; dirty = true } ∷ zero_slot ∷ [];
  budget = half_used;
  stopped = false;
  wake = false;
}

two_keys-IsMailbox : IsMailbox two_keys
two_keys-IsMailbox = record {
  budget_valid = half_used-IsBudget;
  tidy = (inr refl, (inl refl, tt));
  as_many = refl;
}

drain_mailbox-Emptied_example : Emptied half_used two_keys.slots (
  (drain_mailbox two_keys).0,
  (drain_mailbox two_keys).1.budget,
  (drain_mailbox two_keys).1.slots,
)
drain_mailbox-Emptied_example = drain_mailbox-Emptied two_keys two_keys-IsMailbox
