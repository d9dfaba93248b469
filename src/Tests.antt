-- ===== src/Tests.antt =====
-- The theorems at concrete inputs, and runs of the operations.
mod Retention
mod Messages
mod Collections
mod Queueing
mod Storing
mod Configuring
mod Receipts
