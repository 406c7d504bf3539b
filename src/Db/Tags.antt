-- ===== src/Db/Tags.antt =====
-- The comparisons of enum columns decide equality.
use zongo_v.Prelude.{◌≡◌, true, arith}
use zongo_v.Domain.Lifecycle.{TransferStatus, status_eq}
use zongo_v.Db.Rows.{
  Currency, currency_eq, JobType, job_type_eq, JobStatus, job_status_eq, LedgerAccount, account_eq,
  LedgerDirection, direction_eq, ControlKey, control_key_eq, SessionStatus, session_status_eq,
}

pub status_eq→eq : (a b : TransferStatus) → status_eq a b ≡ true → a ≡ b
status_eq→eq a b h = ground arith

pub status_eq_refl : (a : TransferStatus) → status_eq a a ≡ true
status_eq_refl a = ground arith

pub currency_eq→eq : (a b : Currency) → currency_eq a b ≡ true → a ≡ b
currency_eq→eq a b h = ground arith

pub currency_eq_refl : (a : Currency) → currency_eq a a ≡ true
currency_eq_refl a = ground arith

pub account_eq→eq : (a b : LedgerAccount) → account_eq a b ≡ true → a ≡ b
account_eq→eq a b h = ground arith

pub direction_eq→eq : (a b : LedgerDirection) → direction_eq a b ≡ true → a ≡ b
direction_eq→eq a b h = ground arith

pub job_type_eq→eq : (a b : JobType) → job_type_eq a b ≡ true → a ≡ b
job_type_eq→eq a b h = ground arith

pub job_status_eq→eq : (a b : JobStatus) → job_status_eq a b ≡ true → a ≡ b
job_status_eq→eq a b h = ground arith

pub control_key_eq→eq : (a b : ControlKey) → control_key_eq a b ≡ true → a ≡ b
control_key_eq→eq a b h = ground arith

pub session_status_eq→eq : (a b : SessionStatus) → session_status_eq a b ≡ true → a ≡ b
session_status_eq→eq a b h = ground arith
