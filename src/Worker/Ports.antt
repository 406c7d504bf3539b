-- ===== src/Worker/Ports.antt =====
-- The inputs of zongo/apps/worker/src/worker-job.processor.ts, and the ports that it calls: the
-- payment partner (zongo/libs/domain/src/lib/partner-port.ts) and the WhatsApp notifier.
use zongo_v.Prelude.{Bool, Option, String}
use zongo_v.Prelude.Int.{ℤ}
use zongo_v.Domain.Lifecycle.{TransferStatus}
use zongo_v.Db.Rows.{Currency, JobType, Payload}
use zongo_v.Db.Monad.{Thrown}

-- The job types that the processor takes.
pub data JobKind : Type 0 where
  collection payout status_recheck notification reconciliation : JobKind

abbrev pub job_type_of : JobKind → JobType
job_type_of JobKind.collection = JobType.collection
job_type_of JobKind.payout = JobType.payout
job_type_of JobKind.status_recheck = JobType.status_recheck
job_type_of JobKind.notification = JobType.notification
job_type_of JobKind.reconciliation = JobType.reconciliation

abbrev pub kind_name : JobKind → String
kind_name JobKind.collection = "COLLECTION"
kind_name JobKind.payout = "PAYOUT"
kind_name JobKind.status_recheck = "STATUS_RECHECK"
kind_name JobKind.notification = "NOTIFICATION"
kind_name JobKind.reconciliation = "RECONCILIATION"

-- `jobType.toLowerCase()`
abbrev pub kind_lower : JobKind → String
kind_lower JobKind.collection = "collection"
kind_lower JobKind.payout = "payout"
kind_lower JobKind.status_recheck = "status_recheck"
kind_lower JobKind.notification = "notification"
kind_lower JobKind.reconciliation = "reconciliation"

pub record WorkerJobInput : Type 0 where
  pub transaction_reference : String
  pub kind : JobKind
  pub payload : Payload
  pub persisted_job_id : Option String

pub data WorkerJobResult : Type 0 where
  skipped succeeded failed : WorkerJobResult

pub record PartnerRequest : Type 0 where
  pub reference : String
  pub amount : ℤ
  pub currency : Currency
  pub beneficiary_id : String
  pub sender_phone_number : Option String
  pub payout_phone_number : Option String
  pub payout_account : Option String

pub record PartnerError : Type 0 where
  pub code : String
  pub message : String
  pub retryable : Bool

-- The answer of `collect` or `payout`, or what the call throws.
pub data PartnerResult : Type 0 where
  accepted : String → Option TransferStatus → PartnerResult
  refused : PartnerError → PartnerResult
  threw : Thrown → PartnerResult

-- The answer of `status`, or what the call throws.
pub data PartnerStatusResult : Type 0 where
  known : TransferStatus → Option String → PartnerStatusResult
  unknown : PartnerError → PartnerStatusResult
  threw : Thrown → PartnerStatusResult

pub data Phase : Type 0 where
  collection payout : Phase

pub record Services : Type 0 where
  pub collect : PartnerRequest → PartnerResult
  pub payout : PartnerRequest → PartnerResult
  pub status : String → Phase → PartnerStatusResult
  -- `this.protection` is there
  pub protected : Bool
  -- `this.notifier.send`, by recipient and template, where the notifier is there; what it throws
  pub send : Option (String → String → Option Thrown)
