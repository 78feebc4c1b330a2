-- ===== src/Adapters.antt =====
-- src/pitchbot/adapters: how calls of providers fail, and what is done about it.
pub mod CircuitBreaker
pub mod Retry
