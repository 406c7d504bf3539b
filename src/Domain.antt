-- ===== src/Domain.antt =====
-- The transfer lifecycle (zongo/libs/domain/src/lib).
pub mod Lifecycle
pub mod Transitions
