-- ===== src/Tests/Data.antt =====
-- A small database, and what the calls take from outside, for the examples.
use zongo_v.Prelude.{str_eq, true, none, some, [], ◌∷◌}
use zongo_v.Prelude.Int.{pos}
use zongo_v.Domain.Lifecycle.{TransferStatus}
use zongo_v.Db.Rows.{
  Transaction, WorkerJob, JobType, JobStatus, Payload, Session, SessionStatus, Locale, ControlKey,
  enabled, permanently_stopped, PilotControl, ExposurePolicy, Beneficiary, CorridorPolicy, tier_1,
  SenderProfile, Currency, RateLimitBucket, Db,
}
use zongo_v.Db.Env.{Env}
use zongo_v.Db.Monad.{plain}
use zongo_v.Transfer.Input.{InitiateTransferInput}
use zongo_v.Worker.Ports.{Services, WorkerJobInput, JobKind, PartnerResult, PartnerStatusResult}

abbrev pub test_env : Env
test_env = record {
  now = 100000000;
  start_of_day = 90000000;
  new_id = λ label. label;
  decimal = λ n. "7";
  blind_index = λ value purpose. value;
  decrypt = λ text purpose. some text;
  encrypt = λ text purpose. text;
  new_reference = "ZNG-2";
  upper = λ text. text;
  is_blank = λ text. str_eq text "";
  message = λ e. "failed";
  recheck_interval_ms = 60000;
  reconciliation_interval_ms = 900000;
}

abbrev pub later_env : Env
later_env = record test_env { now = 100010000; new_reference = "ZNG-3" }

abbrev pub test_services : Services
test_services = record {
  collect = λ request. PartnerResult.accepted "P-1" none;
  payout = λ request. PartnerResult.accepted "P-2" none;
  status = λ reference phase. PartnerStatusResult.known TransferStatus.collection_success none;
  protected = true;
  send = none;
}

-- A partner that cannot be reached.
abbrev pub silent_services : Services
silent_services = record {
  collect = λ request. PartnerResult.threw (plain "timeout");
  payout = λ request. PartnerResult.threw (plain "timeout");
  status = λ reference phase. PartnerStatusResult.threw (plain "timeout");
  protected = true;
  send = none;
}

abbrev pub old_transfer : Transaction
old_transfer = record {
  id = "t1";
  reference = "ZNG-1";
  corridor_id = "us-ke";
  sender_user_id = "u1";
  beneficiary_id = some "b1";
  retry_beneficiary_id = none;
  status = TransferStatus.pending_collection;
  send_amount = pos 20000;
  send_currency = Currency.usd;
  payout_amount = some (pos 2500000);
  payout_currency = some Currency.kes;
  partner_reference = none;
  partner_reference_blind_index = none;
  idempotency_key = "key-1";
  collection_completed_at = none;
  payout_completed_at = none;
  failed_reason = none;
  last_status_recheck_at = none;
  last_status_recheck_result = none;
  metadata = none;
  created_at = 95000000;
}

abbrev pub old_job : WorkerJob
old_job = record {
  id = "j1";
  dedup_key = "ZNG-1:COLLECTION";
  job_type = JobType.collection;
  transaction_reference = "ZNG-1";
  transaction_id = some "t1";
  status = JobStatus.pending;
  payload = Payload.reference "ZNG-1";
  attempts = 0;
  locked_at = none;
  lease_expires_at = none;
  processed_at = none;
  last_error = none;
  created_at = 95000000;
}

abbrev pub job_input : WorkerJobInput
job_input = record {
  transaction_reference = "ZNG-1";
  kind = JobKind.collection;
  payload = Payload.reference "ZNG-1";
  persisted_job_id = some "j1";
}

abbrev pub open_session : Session
open_session = record {
  id = "s1";
  chat_id = "c1";
  sender_phone_number = none;
  sender_phone_ciphertext = some "+1555";
  sender_phone_blind_index = some "+1555";
  status = SessionStatus.active;
  locale = Locale.en;
  consent_given_at = some 99000000;
  active_chat_key = some "chat:c1";
  transfer_id = none;
  expires_at = none;
}

abbrev pub enabled_control : ControlKey → PilotControl
enabled_control key = record { key = key; state = enabled; reason = none; changed_by = none }

abbrev pub test_policy : ExposurePolicy
test_policy = record {
  allowlist_required = true;
  max_pending_transfers = some 3;
  max_ambiguous_transfers = some 3;
  max_partner_settlement = none;
  max_recovery_capacity = none;
  global_daily_send = some (pos 100000);
  updated_by = none;
}

abbrev pub family : Beneficiary
family = record {
  id = "b1";
  family_id = "f1";
  corridor_id = "us-ke";
  user_id = "u1";
  display_name = "Family";
  payout_country_code = "KE";
  payout_currency = Currency.kes;
  phone_number = none;
  phone_number_ciphertext = some "+254";
  phone_number_blind_index = some "+254";
  payout_account_ciphertext = none;
  version = 1;
  supersedes_id = none;
  is_current = true;
}

abbrev pub corridor : CorridorPolicy
corridor = record {
  corridor_id = "us-ke";
  version = 1;
  is_active = true;
  send_currency = Currency.usd;
  payout_currency = Currency.kes;
  min_send_amount = some (pos 100);
  max_send_amount = some (pos 400000);
}

abbrev pub sender : SenderProfile
sender = record {
  id = "p1";
  user_id = "u1";
  sender_phone_number = none;
  sender_phone_ciphertext = some "+1555";
  sender_phone_blind_index = some "+1555";
  legal_name = none;
  email_ciphertext = none;
  email_blind_index = none;
  backup_phone_ciphertext = none;
  preferred_language = "en";
  tier = tier_1;
  verified_at = some 98000000;
  tier_limit_override = none;
  allowlist_enabled = some true;
}

abbrev pub test_db : Db
test_db = record {
  transactions = old_transfer ∷ [];
  jobs = old_job ∷ [];
  ledger_entries = [];
  reconciliations = [];
  audit_events = [];
  sessions = open_session ∷ [];
  intents = [];
  controls =
      enabled_control ControlKey.global
      ∷ enabled_control ControlKey.initiation
      ∷ enabled_control ControlKey.corridor_provider
      ∷ [];
  exposure_policy = some test_policy;
  signals = [];
  alert_deliveries = [];
  beneficiaries = family ∷ [];
  corridor_policies = corridor ∷ [];
  verifications = [];
  phone_replacements = [];
  tier_policies = [];
  inbound_events = [];
  admin_sessions = [];
  profiles = sender ∷ [];
  identities = [];
  buckets = [];
  alerts = [];
}

abbrev pub stopped_db : Db
stopped_db = record test_db {
  controls =
      record {
        key = ControlKey.initiation;
        state = permanently_stopped;
        reason = none;
        changed_by = none;
      }
      ∷ [];
}

abbrev pub test_input : InitiateTransferInput
test_input = record {
  sender_profile_id = "p1";
  sender_phone_number = "+1555";
  chat_id = "c1";
  inbound_event_id = "e1";
  corridor_id = "us-ke";
  beneficiary_id = "b1";
  send_amount = pos 30000;
  send_currency = Currency.usd;
  payout_amount = pos 3800000;
  payout_currency = Currency.kes;
  quote_id = "q1";
  idempotency_key = "key-2";
}

abbrev pub full_bucket : RateLimitBucket
full_bucket = record {
  key_hash = "hash";
  window_started_at = 1000;
  expires_at = 61000;
  request_count = 5;
}

-- The transfer that the partner knows as P-1.
abbrev pub heard_db : Db
heard_db = record test_db {
  transactions = record old_transfer { partner_reference = some "P-1" } ∷ [];
}
