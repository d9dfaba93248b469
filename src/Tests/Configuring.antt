-- ===== src/Tests/Configuring.antt =====
-- The configuration (internal/config/values.go) and the policy that is made of it, at the defaults.
use walite.Base.{◌≡◌, ◌↔◌, refl, pos, ◌≤ℤ◌, ok}
use walite.Config.{
  default_values, validate_values, validate_retention, validate_ranges, validate_positive,
  validate_bounds, day,
}
use walite.Config.Accepted.{IsValues, validate_values_iff}
use walite.SyncPolicy.{Policy, new_policy, validate_policy}
use walite.SyncPolicy.Create.{new_policy-ok}

validate_values_iff_example : (validate_values default_values ≡ ok tt) ↔ IsValues default_values
validate_values_iff_example = validate_values_iff default_values

abbrev default_policy : Policy
default_policy = record {
  messages_per_chat = default_values.retention.messages_per_chat;
  max_age = default_values.retention.max_age;
  cache_bytes = default_values.retention.cache_bytes;
}

default_made : new_policy default_values.retention ≡ ok default_policy
unfolding new_policy validate_retention validate_ranges validate_positive validate_bounds
default_made = refl

new_policy-ok_example :
    (validate_policy default_policy ≡ ok tt)
    × (pos 20 ≤ℤ default_policy.messages_per_chat)
    × (default_policy.messages_per_chat ≤ℤ pos 500)
    × (pos day ≤ℤ default_policy.max_age)
new_policy-ok_example = new_policy-ok default_values.retention default_made
