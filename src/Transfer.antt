-- ===== src/Transfer.antt =====
-- Starting a transfer (zongo/libs/transfer/src/transfer-initiation.service.ts).
pub mod Input
pub mod Checks
pub mod Exposure
pub mod Initiate
pub mod Admission
pub mod Facts
pub mod Writes
pub mod Guarantees
pub mod Paused
