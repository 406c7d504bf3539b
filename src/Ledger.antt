-- ===== src/Ledger.antt =====
-- zongo/libs/ledger/src/ledger.service.ts
pub mod Derive
pub mod Posting
pub mod Balance
pub mod Idempotence
pub mod Cycle
