-- ===== src/Whatsapp.antt =====
-- The WhatsApp integration, src/pitchbot/whatsapp.
pub mod Pricing
pub mod Webhook
