-- ===== src/Security.antt =====
-- src/pitchbot/security: who may call the service, and how often.
pub mod RateLimit
pub mod Credentials
