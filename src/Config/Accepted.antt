-- ===== src/Config/Accepted.antt =====
-- Exactly which configurations are accepted.
use walite.Base.{
  ℕ, ◌+◌, ◌≤◌, ◌≡◌, ◌↔◌, ◌∙◌, sym, ap, ap₂, ℤ, pos, pos_part, neg_part, ◌<ℤ◌, ◌≤ℤ◌, ltb_ℤ, List, [],
  ◌∷◌, ok, arith, All, All-imp, >>=-eq-ok, >>-eq-ok, ◌>>=◌, ◌>>◌, reject_if, drop,
}
use walite.Config.{
  Values, Queues, Checked, retention_limits, other_limits, limits_for, validate_values,
  validate_retention, validate_positive, validate_ranges, retention_summary_records,
  queue_bytes_total, add_budgets, validate_retention_summary_records,
  validate_history_chunk_capacity, write_entry_limit, max_aggregate_queue_bytes,
  max_retention_summaries, new_config_error, aggregate_exceeded,
}
use walite.Config.Ranges.{InRange, IsPositive, validate_positive_iff, validate_ranges_iff}
use walite.Config.Sums.{
  positive_eq, total_of, add_budgets-exact, add_budgets-fits, retention_summary_records-exact,
  retention_summary_records-fits,
}

abbrev pub queue_bytes : Queues → List ℤ
queue_bytes q =
    q.realtime.bytes ∷ q.history.bytes ∷ q.commands.bytes ∷ q.live_writes.bytes
    ∷ q.history_writes.bytes ∷ q.view_updates.bytes ∷ []

-- Between the first two numbers.
abbrev IsWithin : ℕ × ℕ × ℤ → Type 0
IsWithin (low, high, value) = (pos 0 <ℤ value) × (pos low ≤ℤ value) × (value ≤ℤ pos high)

-- The ranges, in numbers, bytes and nanoseconds.
abbrev retention_ranges : Values → List (ℕ × ℕ × ℤ)
retention_ranges v =
    (20, 500, v.retention.messages_per_chat)
    ∷ (86400000000000, 31536000000000000, v.retention.max_age)
    ∷ (33554432, 2147483648, v.retention.cache_bytes)
    ∷ (100, 10000, v.retention.max_chats)
    ∷ []

abbrev other_ranges : Values → List (ℕ × ℕ × ℤ)
other_ranges v =
    (32, 512, v.queues.realtime.entries)
    ∷ (524288, 4194304, v.queues.realtime.bytes)
    ∷ (1, 16, v.queues.history.entries)
    ∷ (131072, 2097152, v.queues.history.bytes)
    ∷ (1, 64, v.queues.commands.entries)
    ∷ (65536, 1048576, v.queues.commands.bytes)
    ∷ (16, 256, v.queues.live_writes.entries)
    ∷ (262144, 2097152, v.queues.live_writes.bytes)
    ∷ (16, 512, v.queues.history_writes.entries)
    ∷ (524288, 4194304, v.queues.history_writes.bytes)
    ∷ (64, 64, v.queues.view_updates.entries)
    ∷ (131072, 1048576, v.queues.view_updates.bytes)
    ∷ (5000000, 100000000, v.queues.live_write_busy)
    ∷ (1, 32, v.history.chunk_records)
    ∷ (65536, 131072, v.history.chunk_bytes)
    ∷ (1, 50, v.batch.max_operations)
    ∷ (5000000, 100000000, v.batch.max_wait)
    ∷ []

-- Each value in its range, and the joint bounds, on the sums themselves.
pub record IsValues (v : Values) : Type 0 where
  pub retention : All IsWithin (retention_ranges v)
  pub others : All IsWithin (other_ranges v)
  pub summaries :
      pos_part v.retention.messages_per_chat + pos_part v.batch.max_operations + 1
      ≤ max_retention_summaries
  pub queued : total_of (queue_bytes v.queues) ≤ max_aggregate_queue_bytes
  pub chunk : v.history.chunk_bytes ≤ℤ v.queues.history.bytes
  pub live : v.batch.max_operations ≤ℤ v.queues.live_writes.entries
  pub history : v.batch.max_operations ≤ℤ v.queues.history_writes.entries

-- The bytes of a queue are the value of a limit.
queue_bytes-positive :
    (v : Values) → All InRange (other_limits v) → All (λ b. pos 0 <ℤ b) (queue_bytes v.queues)
queue_bytes-positive v h = omega arith

abbrev other_checks : Values → ℤ → ℤ → Checked (Unit {0})
other_checks v summary_records total_queue_bytes = do
  validate_retention v.retention
  validate_ranges (drop 4 (limits_for v))
  validate_retention_summary_records summary_records
  reject_if (ltb_ℤ (pos max_aggregate_queue_bytes) total_queue_bytes) (
      new_config_error "queues.total_bytes" aggregate_exceeded total_queue_bytes (pos 1)
        (pos max_aggregate_queue_bytes))
  validate_history_chunk_capacity v.history.chunk_bytes v.queues.history.bytes
  reject_if (ltb_ℤ (write_entry_limit v.queues) v.batch.max_operations) (
      new_config_error "batch.max_operations" aggregate_exceeded v.batch.max_operations (pos 1)
        (write_entry_limit v.queues))

-- What the checks behind the sums establish.
record Checks (v : Values) (summary_records total_queue_bytes : ℤ) : Type 0 where
  retention : All InRange (retention_limits v.retention)
  others : All InRange (other_limits v)
  summaries : summary_records ≤ℤ pos max_retention_summaries
  queued : total_queue_bytes ≤ℤ pos max_aggregate_queue_bytes
  chunk : v.history.chunk_bytes ≤ℤ v.queues.history.bytes
  live : v.batch.max_operations ≤ℤ v.queues.live_writes.entries
  history : v.batch.max_operations ≤ℤ v.queues.history_writes.entries

other_checks-Checks : (v : Values) (r q : ℤ) → other_checks v r q ≡ ok tt → Checks v r q
unfolding limits_for validate_retention validate_retention_summary_records
    validate_history_chunk_capacity write_entry_limit
other_checks-Checks v r q e =
    let (r1, e1) = >>-eq-ok (validate_ranges (retention_limits v.retention)) _ e in
    let (r2, e2) = >>-eq-ok (validate_ranges (other_limits v)) _ e1 in
    record {
      retention = (validate_ranges_iff (retention_limits v.retention)).0 r1;
      others = (validate_ranges_iff (other_limits v)).0 r2;
      summaries = ground arith;
      queued = ground arith;
      chunk = ground arith;
      live = ground arith;
      history = ground arith;
    }

Checks-other_checks : (v : Values) (r q : ℤ) → Checks v r q → other_checks v r q ≡ ok tt
unfolding limits_for validate_retention validate_retention_summary_records
    validate_history_chunk_capacity write_entry_limit
Checks-other_checks v r q c =
    let a = (validate_ranges_iff (retention_limits v.retention)).1 c.retention in
    let b = (validate_ranges_iff (other_limits v)).1 c.others in
    let k1 = c.summaries in
    let k2 = c.queued in
    let k3 = c.chunk in let k4 = c.live in let k5 = c.history in rw (a, b) (ground arith)

abbrev sums_then_checks : Values → Checked (Unit {0})
sums_then_checks v =
    retention_summary_records v.retention.messages_per_chat v.batch.max_operations >>= λ r.
    queue_bytes_total v.queues >>= λ q. other_checks v r q

-- The two sums of positive values.
record AreSums (v : Values) (r q : ℤ) : Type 0 where
  records : r ≡ pos (pos_part v.retention.messages_per_chat + pos_part v.batch.max_operations + 1)
  bytes : q ≡ pos (total_of (queue_bytes v.queues))

sums-AreSums :
    (v : Values) {r q : ℤ}
    → pos 0 <ℤ v.retention.messages_per_chat
    → pos 0 <ℤ v.batch.max_operations
    → All (λ b. pos 0 <ℤ b) (queue_bytes v.queues)
    → retention_summary_records v.retention.messages_per_chat v.batch.max_operations ≡ ok r
    → queue_bytes_total v.queues ≡ ok q
    → AreSums v r q
unfolding queue_bytes_total
sums-AreSums v {r} {q} m n b e1 e2 = record {
  records =
      retention_summary_records-exact (pos_part v.retention.messages_per_chat)
        (pos_part v.batch.max_operations)
        (sym (ap₂ retention_summary_records (positive_eq _ m) (positive_eq _ n)) ∙ e1);
  bytes = add_budgets-exact 0 (queue_bytes v.queues) b e2 ∙ ap pos (omega arith);
}

IsPositive-limits :
    (v : Values)
    → All InRange (retention_limits v.retention)
    → All InRange (other_limits v)
    → All IsPositive (limits_for v)
unfolding limits_for
IsPositive-limits v r o = (
  r.0.0,
  (r.1.0.0, (r.1.1.0.0, (r.1.1.1.0.0, All-imp InRange IsPositive (λ l k. k.0) (other_limits v) o))),
)

accepted : (v : Values) → validate_values v ≡ ok tt → IsValues v
unfolding validate_values limits_for
accepted v e =
    let (positive, e1) = >>-eq-ok (validate_positive (limits_for v)) (sums_then_checks v) e in
    let (r, e2, e3) =
      >>=-eq-ok (retention_summary_records v.retention.messages_per_chat v.batch.max_operations) _
        e1 in
    let (q, e4, e5) = >>=-eq-ok (queue_bytes_total v.queues) _ e3 in
    let c = other_checks-Checks v r q e5 in
    let o = c.others in
    let a : All IsPositive (limits_for v) = (validate_positive_iff (limits_for v)).0 positive in
    let s = sums-AreSums v a.0 (omega arith) (queue_bytes-positive v c.others) e2 e4 in
    record {
      retention = c.retention;
      others = c.others;
      summaries = omega (arith, c.summaries, ap pos_part s.records, ap neg_part s.records);
      queued = omega (arith, c.queued, ap pos_part s.bytes, ap neg_part s.bytes);
      chunk = c.chunk;
      live = c.live;
      history = c.history;
    }

accepts : (v : Values) → IsValues v → validate_values v ≡ ok tt
unfolding validate_values queue_bytes_total
accepts v h =
    let o = h.others in
    let summaries = h.summaries in
    let queued = h.queued in
    let m = h.retention.0.0 in
    let n : pos 0 <ℤ v.batch.max_operations = omega arith in
    let records : retention_summary_records v.retention.messages_per_chat v.batch.max_operations
        ≡ ok (pos (pos_part v.retention.messages_per_chat + pos_part v.batch.max_operations + 1)) =
      ap₂ retention_summary_records (positive_eq _ m) (positive_eq _ n)
      ∙ retention_summary_records-fits _ _ (omega arith) in
    let bytes : add_budgets (pos 0) (queue_bytes v.queues)
        ≡ ok (pos (total_of (queue_bytes v.queues))) =
      add_budgets-fits 0 (queue_bytes v.queues) (queue_bytes-positive v h.others) (omega arith)
      ∙ ap (λ k. ok (pos k)) (omega arith) in
    rw
      (
        (validate_positive_iff (limits_for v)).1 (IsPositive-limits v h.retention h.others),
        records,
        bytes,
      )
      (Checks-other_checks v
        (pos (pos_part v.retention.messages_per_chat + pos_part v.batch.max_operations + 1))
        (pos (total_of (queue_bytes v.queues)))
        (record {
          retention = h.retention;
          others = h.others;
          summaries = omega arith;
          queued = omega arith;
          chunk = h.chunk;
          live = h.live;
          history = h.history;
        }))

-- A configuration is accepted exactly if every value is in its range, the message limit with the
-- batch size and one more is at most 551, the bytes of the queues come to at most 6.5 MiB, a
-- history chunk fits its queue, and a batch fits both write queues.
pub validate_values_iff : (v : Values) → (validate_values v ≡ ok tt) ↔ IsValues v
validate_values_iff v = (accepted v, accepts v)
