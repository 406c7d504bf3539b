-- ===== src/Partner.antt =====
-- The payment partner (zongo/libs/partner/src/lib).
pub mod Status
pub mod Client
pub mod Adapter
pub mod Webhook
pub mod Answers
pub mod Hints
