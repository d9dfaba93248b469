-- ===== src/Service/Queue/Steps.antt =====
-- The queue as a state machine: a step is one operation of any client, on the queue or on its budget.
use walite.Base.{ℕ, ◌≡◌, ℤ, pos, Bool, ok, WhenOk-ok, Option}
use walite.Service.Budget.{Budget}
use walite.Service.Budget.Invariant.{IsBudget}
use walite.Service.Budget.Steps.{Call, step, step-IsBudget}
use walite.Service.Queue.{
  Queue, Reservation, new_bounded_queue, try_take, close, drain_and_release, try_reserve_capacity,
  release_reservation, register_put_waiter, switch_put_waiter_to_entry, clear_put_waiter, try_put,
  commit,
}
use walite.Service.Queue.Bounded.{
  IsBounded, new_bounded_queue-IsBounded, try_take-IsBounded, drain_and_release-IsBounded,
  try_reserve_capacity-IsBounded, release_reservation-IsBounded, commit-IsBounded,
  try_put-IsBounded, close-IsBounded, register_put_waiter-IsBounded, marked,
}

module _ {ℓ} {T : Type ℓ} (weigh : T → Option ℤ) where
  -- One operation, whatever its outcome; another client of the budget may also use it.
  pub data Step : Queue T → Queue T → Type ℓ where
    puts : (q : Queue T) (value : T) → Step q (try_put weigh q value).0
    takes : (q : Queue T) → Step q (try_take q).1
    closes : (q : Queue T) → Step q (close q)
    drains : (q : Queue T) → Step q (drain_and_release q).1
    reserves :
        (q q' : Queue T) (weight : ℤ) (r : Reservation)
        → try_reserve_capacity q weight ≡ ok (r, q')
        → Step q q'
    returns : (q : Queue T) (r : Reservation) → Step q (release_reservation q r).0
    commits : (q : Queue T) (r : Reservation) (value : T) → Step q (commit weigh q r value).0
    waits : (q : Queue T) (entry : Bool) → Step q (register_put_waiter q entry).1
    switches : (q : Queue T) → Step q (switch_put_waiter_to_entry q)
    clears : (q : Queue T) (entry : Bool) → Step q (clear_put_waiter q entry)
    spends : (q : Queue T) (c : Call) → Step q (record q { budget = step q.budget c })

  pub data Reachable (n : ℕ) : Queue T → Type ℓ where
    created :
        (b : Budget) (q : Queue T) → IsBudget b → new_bounded_queue (pos n) b ≡ ok q → Reachable n q
    stepped : (q q' : Queue T) → Reachable n q → Step q q' → Reachable n q'

  -- Every operation keeps the queue within its slots and its budget.
  pub Step-IsBounded : (n : ℕ) {q q' : Queue T} → Step q q' → IsBounded n q → IsBounded n q'
  Step-IsBounded n (puts q value) v = try_put-IsBounded weigh n q value v
  Step-IsBounded n (takes q) v = try_take-IsBounded n q v
  Step-IsBounded n (closes q) v = close-IsBounded n q v
  Step-IsBounded n (drains q) v = drain_and_release-IsBounded n q v
  Step-IsBounded n (reserves q q' weight r e) v =
      WhenOk-ok (λ (r : Reservation × Queue T). IsBounded n r.1) (try_reserve_capacity q weight)
        (try_reserve_capacity-IsBounded n q weight v) e
  Step-IsBounded n (returns q r) v = release_reservation-IsBounded n q r v
  Step-IsBounded n (commits q r value) v = commit-IsBounded weigh n q r value v
  Step-IsBounded n (waits q entry) v = register_put_waiter-IsBounded n q entry v
  Step-IsBounded n (switches q) v =
      unfold switch_put_waiter_to_entry in
      record {
        queue = record {
          head_in = v.queue.head_in;
          tail_at = v.queue.tail_at;
          within = v.queue.within;
        };
        budget = v.budget;
        size = v.size;
      }
  Step-IsBounded n (clears q entry) v =
      unfold clear_put_waiter in
      record {
        queue = record {
          head_in = v.queue.head_in;
          tail_at = v.queue.tail_at;
          within = v.queue.within;
        };
        budget = v.budget;
        size = v.size;
      }
  Step-IsBounded n (spends q c) v =
      marked n q (step q.budget c) v (step-IsBudget q.budget c v.budget)

  -- Every queue that the operations of its clients, and other calls on its budget, reach from a
  -- new one of `n` entries with a valid budget has `n` slots, holds at most `n` entries and
  -- reservations together, keeps its head and its tail in the ring, and has a budget whose bytes
  -- in use are those of the permits that are out and within the capacity.
  pub Reachable-IsBounded : (n : ℕ) {q : Queue T} → Reachable n q → IsBounded n q
  Reachable-IsBounded n (created b q v e) = new_bounded_queue-IsBounded n b v e
  Reachable-IsBounded n (stepped q q' r s) = Step-IsBounded n s (Reachable-IsBounded n r)
