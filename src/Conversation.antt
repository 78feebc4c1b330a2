-- ===== src/Conversation.antt =====
-- src/pitchbot/conversation: how a conversation with a buyer is led.
pub mod Language
pub mod Planning
pub mod State
pub mod Classify
pub mod Engine
pub mod Checkpoint
pub mod Journal
