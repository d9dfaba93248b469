-- ===== src/SyncPolicy/Create.antt =====
-- Policies made from a configuration.
use walite.Base.{◌≡◌, pos, ◌≤ℤ◌, ok, arith, >>-eq-ok, subst, All}
use walite.Config.{Retention, Values, validate_retention, validate_values, retention_limits, day}
use walite.Config.Ranges.{validate_ranges_iff, InRange}
use walite.Config.Accepted.{validate_values_iff}
use walite.SyncPolicy.{Policy, new_policy, validate_policy}

abbrev policy_of : Retention → Policy
policy_of r = record {
  messages_per_chat = r.messages_per_chat;
  max_age = r.max_age;
  cache_bytes = r.cache_bytes;
}

ranges-ok :
    (r : Retention) → All InRange (retention_limits r) → validate_policy (policy_of r) ≡ ok tt
unfolding validate_policy
ranges-ok r h = ground arith

-- A policy that is made from the retention settings is valid, keeps 20 to 500 messages for each
-- chat, and reaches back at least a day.
pub new_policy-ok :
    (r : Retention) {p : Policy}
    → new_policy r ≡ ok p
    → (validate_policy p ≡ ok tt)
      × (pos 20 ≤ℤ p.messages_per_chat)
      × (p.messages_per_chat ≤ℤ pos 500)
      × (pos day ≤ℤ p.max_age)
unfolding new_policy validate_retention
new_policy-ok r {p} e =
    let (valid, made) = >>-eq-ok (validate_retention r) (ok (policy_of r)) e in
    let ranges = (validate_ranges_iff (retention_limits r)).0 valid in
    let same : policy_of r ≡ p = ground arith in
    subst
      (λ p.
        (validate_policy p ≡ ok tt)
        × (pos 20 ≤ℤ p.messages_per_chat)
        × (p.messages_per_chat ≤ℤ pos 500)
        × (pos day ≤ℤ p.max_age))
      same (ranges-ok r ranges, omega arith, omega arith, omega arith)

-- An accepted configuration gives a policy.
pub new_policy-total :
    (v : Values) → validate_values v ≡ ok tt → (p : Policy) × (new_policy v.retention ≡ ok p)
unfolding new_policy validate_retention
new_policy-total v e =
    let h = (validate_values_iff v).0 e in
    (policy_of v.retention, rw ((validate_ranges_iff (retention_limits v.retention)).1 h.retention))
