-- ===== src/Actions.antt =====
-- The actions taken for a buyer, src/pitchbot/actions.
pub mod Policy
pub mod Callbacks
