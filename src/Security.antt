-- ===== src/Security.antt =====
-- zongo/libs/security/src/security.service.ts.
pub mod Keys
pub mod Envelope
pub mod Rotation
