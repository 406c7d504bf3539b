-- ===== src/Worker/Retry.antt =====
-- `prepareManualPayoutRetry` of zongo/apps/worker/src/worker-job.processor.ts.
use zongo_v.Prelude.{
  Bool, false, ◌&&◌, not, Option, none, some, List, [], ◌∷◌, ◌++◌, String, find_where, any_where,
  update_where, str_eq, truthy, template,
}
use zongo_v.Domain.Lifecycle.{TransferStatus, manual_payout_retry, status_eq}
use zongo_v.Db.Rows.{
  Transaction, WorkerJob, JobType, Payload, Beneficiary, Currency, currency_eq, business,
}
use zongo_v.Db.Env.{Env}
use zongo_v.Db.Monad.{
  domain, beneficiary_not_available, payout_retry_already_prepared, unique_violation, plain, Action,
  ⊤, pure, gets, modify, throw_if, transaction, ◌>>=◌, ◌>>◌,
}
use zongo_v.Ledger.Posting.{append_audit, by_id}
use zongo_v.Worker.Ports.{JobKind, WorkerJobInput}
use zongo_v.Worker.Store.{new_job, transaction_of, job_by_key}
use zongo_v.Worker.Request.{beneficiary_with}
use zongo_v.Worker.Recheck.{assert_transition}

-- `correctedBeneficiaryId ?? transaction.retryBeneficiaryId`
abbrev pub retry_target : Option String → Transaction → Option String
retry_target none t = t.retry_beneficiary_id
retry_target (some id) t = some id

abbrev pub same_currency : Currency → Option Currency → Bool
same_currency c none = false
same_currency c (some d) = currency_eq c d

-- The corrected beneficiary is a current one of this sender, corridor and payout currency.
unfoldable pub is_valid_target : Transaction → Option Beneficiary → Bool
is_valid_target t none = false
is_valid_target t (some b) =
    b.is_current
    && str_eq b.user_id t.sender_user_id
    && str_eq b.corridor_id t.corridor_id
    && same_currency b.payout_currency t.payout_currency

abbrev pub corrected_row : Option String → List Beneficiary → Option Beneficiary
corrected_row none rows = none
corrected_row (some id) rows = find_where (beneficiary_with id) rows

unfoldable pub check_target : Option String → Transaction → Action ⊤
check_target corrected t = do
  b ← gets (λ db. corrected_row corrected db.beneficiaries)
  throw_if (truthy corrected && not (is_valid_target t b)) (domain beneficiary_not_available)

-- The row of the transfer, as long as it still has the status.
abbrev pub with_status : String → TransferStatus → Transaction → Bool
with_status id status t = by_id id t && status_eq t.status status

abbrev pub retried : Option String → Transaction → Transaction
retried target t = record t {
  status = TransferStatus.pending_payout;
  retry_beneficiary_id = target;
  failed_reason = none;
}

-- `transferTransaction.updateMany(…)`, and the throw where its count is not 1.
unfoldable pub claim_retry : Option String → Transaction → Action ⊤
claim_retry target t = do
  is_claimed ←
      gets (λ db. any_where (with_status t.id TransferStatus.payout_failed) db.transactions)
  throw_if (not is_claimed) (domain payout_retry_already_prepared)
  modify (λ db. record db {
    transactions =
        update_where (with_status t.id TransferStatus.payout_failed) (retried target)
          db.transactions;
  })

abbrev pub manual_key : Env → String → String
manual_key env id = template ("manual-payout-retry:" ∷ id ∷ ":" ∷ env.decimal env.now ∷ [])

abbrev pub manual_job : Env → Option String → Transaction → WorkerJob
manual_job env target t =
    new_job env (manual_key env t.id) JobType.payout t.reference (some t.id)
      (Payload.manual t.id target)

-- `workerJob.create(…)`: the key must be free.
unfoldable pub create_job : WorkerJob → Action ⊤
create_job j = do
  taken ← gets (λ db. any_where (job_by_key j.dedup_key) db.jobs)
  throw_if taken unique_violation
  modify (λ db. record db { jobs = db.jobs ++ j ∷ [] })

unfoldable pub prepare_retry : Env → Option String → Transaction → Action WorkerJob
prepare_retry env corrected t = transaction (do
  check_target corrected t
  claim_retry (retry_target corrected t) t
  create_job (manual_job env (retry_target corrected t) t)
  pure (manual_job env (retry_target corrected t) t))

unfoldable pub prepare_manual_payout_retry : Env → String → Option String → Action WorkerJobInput
prepare_manual_payout_retry env reference corrected = do
  t ← transaction_of reference
  throw_if (not (status_eq t.status TransferStatus.payout_failed))
      (plain "Only a failed payout can be manually retried")
  assert_transition t.status TransferStatus.pending_payout manual_payout_retry
  job ← prepare_retry env corrected t
  append_audit business "transfer.payout.manual-retry.prepared" (some t.id) env.now
  pure record {
    transaction_reference = t.reference;
    kind = JobKind.payout;
    payload = Payload.manual_flag;
    persisted_job_id = some job.id;
  }
