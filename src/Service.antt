-- ===== src/Service.antt =====
-- internal/service: byte budgets and the bounded containers that they charge.
pub mod Failure
pub mod Budget
pub mod Queue
pub mod Mailbox
pub mod Writer
