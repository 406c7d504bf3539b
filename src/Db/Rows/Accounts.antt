-- ===== src/Db/Rows/Accounts.antt =====
-- Ledger entries, reconciliations and audit events (zongo/prisma/schema.prisma).
use zongo_v.Prelude.{ℕ, Bool, Option, String, ◌==◌}
use zongo_v.Prelude.Int.{ℤ}
use zongo_v.Domain.Lifecycle.{TransferStatus}
use zongo_v.Db.Rows.Transfers.{Currency}

pub data LedgerAccount : Type 0 where
  customer_collection partner_clearing beneficiary_payout : LedgerAccount

abbrev pub account_tag : LedgerAccount → ℕ
account_tag customer_collection = 0
account_tag partner_clearing = 1
account_tag beneficiary_payout = 2

abbrev pub account_eq : LedgerAccount → LedgerAccount → Bool
account_eq a b = account_tag a == account_tag b

pub data LedgerDirection : Type 0 where
  debit credit : LedgerDirection

abbrev pub direction_tag : LedgerDirection → ℕ
direction_tag debit = 0
direction_tag credit = 1

abbrev pub direction_eq : LedgerDirection → LedgerDirection → Bool
direction_eq a b = direction_tag a == direction_tag b

pub record LedgerEntry : Type 0 where
  pub transaction_id : String
  pub account : LedgerAccount
  pub direction : LedgerDirection
  pub amount : ℤ
  pub currency : Currency
  pub event_name : String

pub data ReconciliationStatus : Type 0 where
  pending consistent missing_collection_entry missing_payout_entry mismatch : ReconciliationStatus

pub record Reconciliation : Type 0 where
  pub transaction_id : String
  pub status : ReconciliationStatus
  pub reason : Option String
  pub transaction_status : TransferStatus
  pub provider_status_snapshot : Option String
  pub provider_reference_present : Bool
  pub callback_count : ℕ
  pub last_callback_at : Option ℕ

pub data AuditEventType : Type 0 where
  business technical : AuditEventType

-- The payload of an audit event is not kept.
pub record AuditEvent : Type 0 where
  pub event_type : AuditEventType
  pub name : String
  pub transaction_id : Option String
  pub created_at : ℕ
