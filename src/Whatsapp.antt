-- ===== src/Whatsapp.antt =====
-- zongo/libs/whatsapp/src.
pub mod Throttle
pub mod Throttling
pub mod Message
pub mod Inbound
pub mod Expiry
pub mod Intents
pub mod Conversations
pub mod Keys
pub mod Replays
pub mod Notices
