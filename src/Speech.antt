-- ===== src/Speech.antt =====
-- src/pitchbot/speech: the voice path of the agent.
pub mod Models
pub mod TurnTaking
pub mod ReplyAudio
pub mod Backchannel
