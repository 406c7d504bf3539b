-- ===== src/Db/Rows/Transfers.antt =====
-- Transfers and the jobs of the worker (zongo/prisma/schema.prisma).
use zongo_v.Prelude.{ℕ, Bool, Option, String, ◌==◌}
use zongo_v.Prelude.Int.{ℤ}
use zongo_v.Domain.Lifecycle.{TransferStatus}

pub data Currency : Type 0 where
  usd cdf kes ugx : Currency

abbrev pub currency_tag : Currency → ℕ
currency_tag Currency.usd = 0
currency_tag Currency.cdf = 1
currency_tag Currency.kes = 2
currency_tag Currency.ugx = 3

abbrev pub currency_eq : Currency → Currency → Bool
currency_eq a b = currency_tag a == currency_tag b

-- `metadata` as initiation writes it.
pub record Metadata : Type 0 where
  pub sender_profile_id : String
  pub quote_id : String
  pub inbound_event_id : String

pub record Transaction : Type 0 where
  pub id : String
  pub reference : String
  pub corridor_id : String
  pub sender_user_id : String
  pub beneficiary_id : Option String
  pub retry_beneficiary_id : Option String
  pub status : TransferStatus
  pub send_amount : ℤ
  pub send_currency : Currency
  pub payout_amount : Option ℤ
  pub payout_currency : Option Currency
  pub partner_reference : Option String
  pub partner_reference_blind_index : Option String
  pub idempotency_key : String
  pub collection_completed_at : Option ℕ
  pub payout_completed_at : Option ℕ
  pub failed_reason : Option String
  pub last_status_recheck_at : Option ℕ
  pub last_status_recheck_result : Option String
  pub metadata : Option Metadata
  pub created_at : ℕ

pub data JobType : Type 0 where
  collection payout status_recheck notification retry admin_alert reconciliation : JobType

abbrev pub job_type_tag : JobType → ℕ
job_type_tag JobType.collection = 0
job_type_tag JobType.payout = 1
job_type_tag JobType.status_recheck = 2
job_type_tag JobType.notification = 3
job_type_tag JobType.retry = 4
job_type_tag JobType.admin_alert = 5
job_type_tag JobType.reconciliation = 6

abbrev pub job_type_eq : JobType → JobType → Bool
job_type_eq a b = job_type_tag a == job_type_tag b

pub data JobStatus : Type 0 where
  pending running succeeded failed : JobStatus

abbrev pub job_status_tag : JobStatus → ℕ
job_status_tag JobStatus.pending = 0
job_status_tag JobStatus.running = 1
job_status_tag JobStatus.succeeded = 2
job_status_tag JobStatus.failed = 3

abbrev pub job_status_eq : JobStatus → JobStatus → Bool
job_status_eq a b = job_status_tag a == job_status_tag b

-- The `payload` of a job, by the call that creates it.
pub data Payload : Type 0 where
  reference : String → Payload
  reason : String → Payload
  callback : String → TransferStatus → Payload
  sweep : String → ℕ → Payload
  intent : String → Payload
  manual : String → Option String → Payload
  manual_flag : Payload
  requested_by : String → Payload

pub record WorkerJob : Type 0 where
  pub id : String
  pub dedup_key : String
  pub job_type : JobType
  pub transaction_reference : String
  pub transaction_id : Option String
  pub status : JobStatus
  pub payload : Payload
  pub attempts : ℕ
  pub locked_at : Option ℕ
  pub lease_expires_at : Option ℕ
  pub processed_at : Option ℕ
  pub last_error : Option String
  pub created_at : ℕ
