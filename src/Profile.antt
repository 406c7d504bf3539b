-- ===== src/Profile.antt =====
-- zongo/libs/profile/src/sender-profile.service.ts.
pub mod Accounts
pub mod Evidence
pub mod Review
pub mod Eligibility
pub mod Decisions
pub mod Standing
pub mod Allowance
pub mod Agreement
