-- ===== src/Deliberation.antt =====
-- Background deliberation, src/pitchbot/deliberation.
pub mod Lanes
pub mod Briefing
