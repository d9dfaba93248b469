-- ===== src/Service/Failure.antt =====
-- The error values of internal/service/budget.go.
pub data Failure : Type 0 where
  invalid_weight queue_full queue_stopped unknown_mailbox_key permit_released : Failure
  queue_invariant : Failure
