-- ===== src/Domain.antt =====
-- The values that the program's parts exchange, src/pitchbot/domain.
pub mod Json
pub mod Facts
