-- ===== src/Db/Rows/Tables.antt =====
-- The database (zongo/prisma/schema.prisma).
use zongo_v.Prelude.{Option, List}
use zongo_v.Db.Rows.Transfers.{Transaction, WorkerJob}
use zongo_v.Db.Rows.Accounts.{LedgerEntry, Reconciliation, AuditEvent}
use zongo_v.Db.Rows.Chats.{Session, NotificationIntent, InboundEvent, RateLimitBucket}
use zongo_v.Db.Rows.Controls.{PilotControl, ExposurePolicy, ExposureSignal, AlertDelivery, Alert}
use zongo_v.Db.Rows.People.{
  Beneficiary, CorridorPolicy, SenderProfile, Verification, PhoneReplacement, TierLimitPolicy,
  PlatformIdentity, AdminSession,
}

pub record Db : Type 0 where
  pub transactions : List Transaction
  pub jobs : List WorkerJob
  pub ledger_entries : List LedgerEntry
  pub reconciliations : List Reconciliation
  pub audit_events : List AuditEvent
  pub sessions : List Session
  pub intents : List NotificationIntent
  pub controls : List PilotControl
  pub exposure_policy : Option ExposurePolicy
  pub signals : List ExposureSignal
  pub alert_deliveries : List AlertDelivery
  pub beneficiaries : List Beneficiary
  pub corridor_policies : List CorridorPolicy
  pub verifications : List Verification
  pub phone_replacements : List PhoneReplacement
  pub tier_policies : List TierLimitPolicy
  pub inbound_events : List InboundEvent
  pub admin_sessions : List AdminSession
  pub profiles : List SenderProfile
  pub identities : List PlatformIdentity
  pub buckets : List RateLimitBucket
  pub alerts : List Alert
