-- ===== src/Store.antt =====
-- internal/store: the bounded store in memory.
pub mod Memory
pub mod Merge
pub mod Stage
pub mod Write
pub mod Page
pub mod Prune
pub mod Usage
pub mod Steps
