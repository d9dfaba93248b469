-- ===== src/Model.antt =====
-- internal/model: bounded, validated values.
pub mod Error
pub mod Time
pub mod Utf8
pub mod Normalize
pub mod Identifier
pub mod Media
pub mod Quote
pub mod Message
pub mod Order
pub mod Anchor
pub mod Chat
pub mod Batch
pub mod Display
pub mod LiveEvent
pub mod Update
pub mod ReadReceipt
pub mod Retention
