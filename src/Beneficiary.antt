-- ===== src/Beneficiary.antt =====
-- zongo/libs/beneficiary/src/beneficiary.service.ts.
pub mod Revisions
pub mod Selection
pub mod Targets
pub mod Choices
