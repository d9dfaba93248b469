-- ===== src/Config.antt =====
-- The configuration values (internal/config/values.go): their defaults, ranges and joint bounds. Go's
-- `int` is taken to have 64 bits, so that its conversions to `int64` change nothing.
pub mod Ranges
pub mod Sums
pub mod Accepted
use walite.Base.{
  ℕ, ◌+◌, ◌-◌, ◌*◌, ◌^◌, ℤ, pos, negsuc, ltb_ℤ, leb_ℤ, eqb_ℤ, ◌+ℤ◌, ◌-ℤ◌, Bool, true, false, ◌&&◌,
  ◌||◌, List, [], ◌∷◌, String, Result, ok, err, ◌>>=◌, ◌>>◌, drop, Option, none, some,
  if◌then◌else◌, reject_if, not,
}
use walite.Model.Time.{Duration}

abbrev pub kibibyte : ℕ
kibibyte = 1024

abbrev pub mebibyte : ℕ
mebibyte = 1048576

abbrev pub millisecond : ℕ
millisecond = 1000000

abbrev pub day : ℕ
day = 86400000000000

abbrev pub max_aggregate_queue_bytes : ℕ
max_aggregate_queue_bytes = 6815744

abbrev pub max_retention_summaries : ℕ
max_retention_summaries = 551

-- `maxIntValue` and `maxInt64Value`
abbrev pub max_int_value : ℤ
max_int_value = pos (2 ^ 63 - 1)

abbrev pub min_int_value : ℤ
min_int_value = negsuc (2 ^ 63 - 1)

pub record QueueLimit : Type 0 where
  pub entries : ℤ
  pub bytes : ℤ

pub record Retention : Type 0 where
  pub messages_per_chat : ℤ
  pub max_age : Duration
  pub cache_bytes : ℤ
  pub max_chats : ℤ

pub record Queues : Type 0 where
  pub realtime : QueueLimit
  pub history : QueueLimit
  pub commands : QueueLimit
  pub live_writes : QueueLimit
  pub history_writes : QueueLimit
  pub view_updates : QueueLimit
  pub live_write_busy : Duration

pub record History : Type 0 where
  pub chunk_records : ℤ
  pub chunk_bytes : ℤ

pub record Batch : Type 0 where
  pub max_operations : ℤ
  pub max_wait : Duration

pub record Values : Type 0 where
  pub retention : Retention
  pub queues : Queues
  pub history : History
  pub batch : Batch

-- The constants of the string type `ValidationRule`.
pub data ValidationRule : Type 0 where
  required out_of_range overflow aggregate_exceeded : ValidationRule

-- A field is the text of its constant.
pub record ConfigError : Type 0 where
  pub field : String
  pub rule : ValidationRule
  pub value : ℤ
  pub min : ℤ
  pub max : ℤ

abbrev pub Checked : Type 0 → Type 0
Checked A = Result ConfigError A

unfoldable pub new_config_error : String → ValidationRule → ℤ → ℤ → ℤ → ConfigError
new_config_error field rule value min max = record {
  field = field;
  rule = rule;
  value = value;
  min = min;
  max = max;
}

abbrev pub default_values : Values
default_values = record {
  retention = record {
    messages_per_chat = pos 100;
    max_age = pos (90 * day);
    cache_bytes = pos (250 * mebibyte);
    max_chats = pos 10000;
  };
  queues = record {
    realtime = record { entries = pos 128; bytes = pos (2 * mebibyte) };
    history = record { entries = pos 4; bytes = pos (512 * kibibyte) };
    commands = record { entries = pos 32; bytes = pos (512 * kibibyte) };
    live_writes = record { entries = pos 128; bytes = pos mebibyte };
    history_writes = record { entries = pos 256; bytes = pos (2 * mebibyte) };
    view_updates = record { entries = pos 64; bytes = pos (512 * kibibyte) };
    live_write_busy = pos (25 * millisecond);
  };
  history = record { chunk_records = pos 32; chunk_bytes = pos (128 * kibibyte) };
  batch = record { max_operations = pos 50; max_wait = pos (25 * millisecond) };
}

-- `numericLimit`, with the bounds that the code gives as constants.
pub record NumericLimit : Type 0 where
  pub field : String
  pub value : ℤ
  pub min : ℕ
  pub max : ℕ

abbrev limit : String → ℤ → ℕ → ℕ → NumericLimit
limit field value min max = record { field = field; value = value; min = min; max = max }

abbrev pub retention_limits : Retention → List NumericLimit
retention_limits r =
    limit "retention.messages_per_chat" r.messages_per_chat 20 500
    ∷ limit "retention.max_age" r.max_age day (365 * day)
    ∷ limit "retention.cache_bytes" r.cache_bytes (32 * mebibyte) (2048 * mebibyte)
    ∷ limit "retention.max_chats" r.max_chats 100 10000
    ∷ []

-- The limits behind those of the retention, `limits[4:]`.
abbrev pub other_limits : Values → List NumericLimit
other_limits v =
    limit "queues.realtime.entries" v.queues.realtime.entries 32 512
    ∷ limit "queues.realtime.bytes" v.queues.realtime.bytes (512 * kibibyte) (4 * mebibyte)
    ∷ limit "queues.history.entries" v.queues.history.entries 1 16
    ∷ limit "queues.history.bytes" v.queues.history.bytes (128 * kibibyte) (2 * mebibyte)
    ∷ limit "queues.commands.entries" v.queues.commands.entries 1 64
    ∷ limit "queues.commands.bytes" v.queues.commands.bytes (64 * kibibyte) mebibyte
    ∷ limit "queues.live_writes.entries" v.queues.live_writes.entries 16 256
    ∷ limit "queues.live_writes.bytes" v.queues.live_writes.bytes (256 * kibibyte) (2 * mebibyte)
    ∷ limit "queues.history_writes.entries" v.queues.history_writes.entries 16 512
    ∷ limit "queues.history_writes.bytes" v.queues.history_writes.bytes (512 * kibibyte)
        (4 * mebibyte)
    ∷ limit "queues.view_updates.entries" v.queues.view_updates.entries 64 64
    ∷ limit "queues.view_updates.bytes" v.queues.view_updates.bytes (128 * kibibyte) mebibyte
    ∷ limit "queues.live_write_busy" v.queues.live_write_busy (5 * millisecond) (100 * millisecond)
    ∷ limit "history.chunk_records" v.history.chunk_records 1 32
    ∷ limit "history.chunk_bytes" v.history.chunk_bytes (64 * kibibyte) (128 * kibibyte)
    ∷ limit "batch.max_operations" v.batch.max_operations 1 50
    ∷ limit "batch.max_wait" v.batch.max_wait (5 * millisecond) (100 * millisecond)
    ∷ []

unfoldable pub limits_for : Values → List NumericLimit
limits_for v =
    limit "retention.messages_per_chat" v.retention.messages_per_chat 20 500
    ∷ limit "retention.max_age" v.retention.max_age day (365 * day)
    ∷ limit "retention.cache_bytes" v.retention.cache_bytes (32 * mebibyte) (2048 * mebibyte)
    ∷ limit "retention.max_chats" v.retention.max_chats 100 10000
    ∷ other_limits v

abbrev pub limit_error : NumericLimit → ValidationRule → ConfigError
limit_error l rule = new_config_error l.field rule l.value (pos l.min) (pos l.max)

unfoldable pub validate_positive : List NumericLimit → Checked (Unit {0})
validate_positive [] = ok tt
validate_positive (l ∷ limits) = do
  reject_if (eqb_ℤ l.value (pos 0)) (limit_error l required)
  reject_if (ltb_ℤ l.value (pos 0)) (limit_error l out_of_range)
  validate_positive limits

-- The second loop of `validateRanges`.
unfoldable pub validate_bounds : List NumericLimit → Checked (Unit {0})
validate_bounds [] = ok tt
validate_bounds (l ∷ limits) = do
  reject_if (ltb_ℤ l.value (pos l.min) || ltb_ℤ (pos l.max) l.value) (limit_error l out_of_range)
  validate_bounds limits

unfoldable pub validate_ranges : List NumericLimit → Checked (Unit {0})
validate_ranges limits = do validate_positive limits; validate_bounds limits

-- `Retention.Validate`
unfoldable pub validate_retention : Retention → Checked (Unit {0})
validate_retention r = validate_ranges (retention_limits r)

-- `checkedAddInt` and `checkedAddInt64`; `none` is the result `(0, false)`.
unfoldable pub checked_add : ℤ → ℤ → Option ℤ
checked_add left right =
    if ltb_ℤ (pos 0) right && ltb_ℤ (max_int_value -ℤ right) left
    then none
    else if ltb_ℤ right (pos 0) && ltb_ℤ left (min_int_value -ℤ right)
    then none
    else some (left +ℤ right)

abbrev pub add_one : Option ℤ → Option ℤ
add_one none = none
add_one (some total) = checked_add total (pos 1)

abbrev pub or_overflow : String → ℕ → Option ℤ → Checked ℤ
or_overflow field max none = err (new_config_error field overflow max_int_value (pos 1) (pos max))
or_overflow field max (some total) = ok total

unfoldable pub retention_summary_records : ℤ → ℤ → Checked ℤ
retention_summary_records messages_per_chat batch_operations =
    or_overflow "retention.summary_records" max_retention_summaries
      (add_one (checked_add messages_per_chat batch_operations))

unfoldable pub validate_retention_summary_records : ℤ → Checked (Unit {0})
validate_retention_summary_records summary_records =
    reject_if (ltb_ℤ (pos max_retention_summaries) summary_records) (
      new_config_error "retention.summary_records" aggregate_exceeded summary_records (pos 1)
        (pos max_retention_summaries))

unfoldable pub validate_history_chunk_capacity : ℤ → ℤ → Checked (Unit {0})
validate_history_chunk_capacity chunk_bytes queue_bytes =
    reject_if (ltb_ℤ queue_bytes chunk_bytes) (
      new_config_error "history.chunk_bytes" aggregate_exceeded chunk_bytes (pos (64 * kibibyte))
        queue_bytes)

-- The loop of `queueBytesTotal`.
unfoldable pub add_budgets : ℤ → List ℤ → Checked ℤ
add_budgets total [] = ok total
add_budgets total (budget ∷ budgets) = do
  next ← or_overflow "queues.total_bytes" max_aggregate_queue_bytes (checked_add total budget)
  add_budgets next budgets

unfoldable pub queue_bytes_total : Queues → Checked ℤ
queue_bytes_total q = add_budgets (pos 0) (
    q.realtime.bytes ∷ q.history.bytes ∷ q.commands.bytes ∷ q.live_writes.bytes
    ∷ q.history_writes.bytes ∷ q.view_updates.bytes ∷ [])

unfoldable pub write_entry_limit : Queues → ℤ
write_entry_limit q =
    if ltb_ℤ q.history_writes.entries q.live_writes.entries
    then q.history_writes.entries
    else q.live_writes.entries

-- `Values.Validate`
unfoldable pub validate_values : Values → Checked (Unit {0})
validate_values v = do
  validate_positive (limits_for v)
  summary_records ← retention_summary_records v.retention.messages_per_chat v.batch.max_operations
  total_queue_bytes ← queue_bytes_total v.queues
  validate_retention v.retention
  validate_ranges (drop 4 (limits_for v))
  validate_retention_summary_records summary_records
  reject_if (ltb_ℤ (pos max_aggregate_queue_bytes) total_queue_bytes) (
      new_config_error "queues.total_bytes" aggregate_exceeded total_queue_bytes (pos 1)
        (pos max_aggregate_queue_bytes))
  validate_history_chunk_capacity v.history.chunk_bytes v.queues.history.bytes
  reject_if (ltb_ℤ (write_entry_limit v.queues) v.batch.max_operations) (
      new_config_error "batch.max_operations" aggregate_exceeded v.batch.max_operations (pos 1)
        (write_entry_limit v.queues))
