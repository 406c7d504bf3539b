-- ===== src/Transfer/Initiate.antt =====
-- `initiate` of zongo/libs/transfer/src/transfer-initiation.service.ts.
use zongo_v.Prelude.{
  Bool, true, false, ◌&&◌, ◌||◌, Option, none, some, [], ◌∷◌, ◌++◌, String, find_where,
  update_where, any_where, str_eq, is_text, template, if◌then◌else◌,
}
use zongo_v.Prelude.Int.{pos, leb_ℤ, eq_ℤ}
use zongo_v.Domain.Lifecycle.{TransferStatus}
use zongo_v.Db.Rows.{
  Transaction, Metadata, WorkerJob, JobType, JobStatus, Payload, Session, SenderProfile, business,
}
use zongo_v.Db.Env.{Env}
use zongo_v.Db.Monad.{
  domain, unique_violation, invalid_transfer_amount, transfer_idempotency_conflict, Action, pure,
  throw, gets, reads, modify, throw_if, transaction, ◌>>=◌, ◌>>◌,
}
use zongo_v.Ledger.Posting.{append_audit}
use zongo_v.Transfer.Input.{InitiateTransferInput}
use zongo_v.Transfer.Checks.{
  check_controls, check_session, check_sender, check_beneficiary, check_corridor,
  check_sender_limits,
}
use zongo_v.Transfer.Exposure.{check_exposure}

-- What `initiate` returns.
pub record Initiation : Type 0 where
  pub duplicate : Bool
  pub accepted : Transaction

abbrev pub same_profile : Option Metadata → String → Bool
same_profile none id = false
same_profile (some m) id = str_eq m.sender_profile_id id

abbrev pub same_quote : Option Metadata → String → Bool
same_quote none id = false
same_quote (some m) id = str_eq m.quote_id id

-- The stored transfer was started by the same request.
abbrev pub is_replay : InitiateTransferInput → Transaction → Bool
is_replay input t =
    same_profile t.metadata input.sender_profile_id
    && is_text t.beneficiary_id input.beneficiary_id
    && eq_ℤ t.send_amount input.send_amount
    && same_quote t.metadata input.quote_id

abbrev pub keyed_by : String → Transaction → Bool
keyed_by key t = str_eq t.idempotency_key key

abbrev pub collection_key : String → String
collection_key reference = template (reference ∷ ":COLLECTION" ∷ [])

abbrev pub new_transfer : Env → InitiateTransferInput → SenderProfile → Transaction
new_transfer env input profile = record {
  id = env.new_id "transfer";
  reference = env.new_reference;
  corridor_id = input.corridor_id;
  sender_user_id = profile.user_id;
  beneficiary_id = some input.beneficiary_id;
  retry_beneficiary_id = none;
  status = TransferStatus.initiated;
  send_amount = input.send_amount;
  send_currency = input.send_currency;
  payout_amount = some input.payout_amount;
  payout_currency = some input.payout_currency;
  partner_reference = none;
  partner_reference_blind_index = none;
  idempotency_key = input.idempotency_key;
  collection_completed_at = none;
  payout_completed_at = none;
  failed_reason = none;
  last_status_recheck_at = none;
  last_status_recheck_result = none;
  metadata = some (record {
    sender_profile_id = input.sender_profile_id;
    quote_id = input.quote_id;
    inbound_event_id = input.inbound_event_id;
  });
  created_at = env.now;
}

abbrev pub collection_job : Env → Transaction → WorkerJob
collection_job env t = record {
  id = env.new_id (collection_key t.reference);
  dedup_key = collection_key t.reference;
  job_type = JobType.collection;
  transaction_reference = t.reference;
  transaction_id = some t.id;
  status = JobStatus.pending;
  payload = Payload.reference t.reference;
  attempts = 0;
  locked_at = none;
  lease_expires_at = none;
  processed_at = none;
  last_error = none;
  created_at = env.now;
}

-- The writes: the transfer, its collection job, the session that owns it, the audit event. A
-- reference or a job key that is already taken throws.
unfoldable pub commit_transfer :
    Env → InitiateTransferInput → Session → SenderProfile → Action Initiation
commit_transfer env input session profile = do
  let t = new_transfer env input profile
  taken ← gets (λ db. any_where (λ u. str_eq u.reference t.reference) db.transactions)
  throw_if taken unique_violation
  modify (λ db. record db { transactions = db.transactions ++ t ∷ [] })
  queued ← gets (λ db. any_where (λ j. str_eq j.dedup_key (collection_key t.reference)) db.jobs)
  throw_if queued unique_violation
  modify (λ db. record db { jobs = db.jobs ++ collection_job env t ∷ [] })
  modify λ db. record db {
    sessions =
        update_where (λ s. str_eq s.id session.id) (λ s. record s { transfer_id = some t.id })
          db.sessions;
  }
  append_audit business "transfer.initiated" (some t.id) env.now
  pure (record { duplicate = false; accepted = t })

-- A new request, once no transfer has its key.
unfoldable pub admit : Env → InitiateTransferInput → Action Initiation
admit env input = do
  reads check_controls
  session ← reads (check_session env input)
  profile ← reads (check_sender env input)
  reads (check_beneficiary input profile)
  reads (check_corridor input)
  reads (check_sender_limits env input profile)
  reads (check_exposure env input)
  commit_transfer env input session profile

abbrev pub replay_or_admit : Env → InitiateTransferInput → Option Transaction → Action Initiation
replay_or_admit env input none = admit env input
replay_or_admit env input (some existing) =
    if is_replay input existing
    then pure (record { duplicate = true; accepted = existing })
    else throw (domain transfer_idempotency_conflict)

-- `initiate`; the advisory lock of the chat orders the calls and leaves no trace.
unfoldable pub initiate : Env → InitiateTransferInput → Action Initiation
initiate env input = do
  throw_if (leb_ℤ input.send_amount (pos 0) || leb_ℤ input.payout_amount (pos 0))
      (domain invalid_transfer_amount)
  transaction (do
    existing ← gets (λ db. find_where (keyed_by input.idempotency_key) db.transactions)
    replay_or_admit env input existing)
