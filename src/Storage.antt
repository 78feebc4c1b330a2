-- ===== src/Storage.antt =====
-- The event store, src/pitchbot/storage.
pub mod Models
pub mod Repository
pub mod Redaction
pub mod Privacy
pub mod Suppression
