-- ===== src/Worker/Retries.antt =====
-- A manual payout retry is prepared once: `prepareManualPayoutRetry` of
-- zongo/apps/worker/src/worker-job.processor.ts.
use text.Mathlib.TextPositions.{eq_refl}
use zongo_v.Prelude.{
  true, false, ◌&&◌, not, Option, some, List, [], ◌∷◌, ◌++◌, String, ◌≡◌, refl, sym, ◌∙◌, ap, arith,
  find_where, update_where, find_where-update_selected, truthy,
}
use zongo_v.Domain.Lifecycle.{TransferStatus, status_eq}
use zongo_v.Db.Rows.{Transaction, WorkerJob, Payload, business, Db}
use zongo_v.Db.Env.{Env}
use zongo_v.Db.Monad.{ok, err, plain, pure, ◌>>=◌, ◌>>◌}
use zongo_v.Db.Inversion.{bind-ok, lookup-ok, throw_if-ok}
use zongo_v.Ledger.Posting.{append_audit}
use zongo_v.Worker.Ports.{WorkerJobInput, JobKind}
use zongo_v.Worker.Recheck.{assert_transition}
use zongo_v.Worker.Store.{transaction_of, by_reference}
use zongo_v.Worker.Retry.{
  retry_target, is_valid_target, corrected_row, check_target, with_status, retried, claim_retry,
  create_job, manual_job, prepare_retry, prepare_manual_payout_retry,
}

-- What a prepared retry changes of the transfers, and what it checked.
prepared-writes :
    (env : Env) (corrected : Option String) (t : Transaction) (db : Db) {job : WorkerJob} {db' : Db}
    → prepare_retry env corrected t db ≡ (ok job, db')
    → (db'.transactions
        ≡ update_where
            (with_status t.id TransferStatus.payout_failed)
            (retried (retry_target corrected t))
            db.transactions)
      × (db'.jobs ≡ db.jobs ++ manual_job env (retry_target corrected t) t ∷ [])
      × ((truthy corrected && not (is_valid_target t (corrected_row corrected db.beneficiaries)))
          ≡ false)
unfolding prepare_retry check_target claim_retry create_job ◌>>=◌
prepared-writes env corrected t db h = ground arith

input_of : Transaction → WorkerJob → WorkerJobInput
input_of t j = record {
  transaction_reference = t.reference;
  kind = JobKind.payout;
  payload = Payload.manual_flag;
  persisted_job_id = some j.id;
}

-- The audit event that follows changes neither transfers nor jobs.
audited :
    (env : Env) (t : Transaction) (j : WorkerJob) (db : Db) {job : WorkerJobInput} {db' : Db}
    → (append_audit business "transfer.payout.manual-retry.prepared" (some t.id) env.now
          >> pure (input_of t j))
        db
      ≡ (ok job, db')
    → (db'.transactions ≡ db.transactions) × (db'.jobs ≡ db.jobs)
unfolding ◌>>=◌
audited env t j db h = (sym (ap (λ r. r.1.transactions) h), sym (ap (λ r. r.1.jobs) h))

-- What a call that found the transfer did.
prepared-outcome :
    (env : Env) (corrected : Option String) (t : Transaction) (db : Db) {job : WorkerJobInput}
    {db' : Db}
    → (prepare_retry env corrected t >>= λ j.
          append_audit business "transfer.payout.manual-retry.prepared" (some t.id) env.now
          >> pure (input_of t j))
        db
      ≡ (ok job, db')
    → (db'.transactions
        ≡ update_where
            (with_status t.id TransferStatus.payout_failed)
            (retried (retry_target corrected t))
            db.transactions)
      × (db'.jobs ≡ db.jobs ++ manual_job env (retry_target corrected t) t ∷ [])
      × ((truthy corrected && not (is_valid_target t (corrected_row corrected db.beneficiaries)))
          ≡ false)
prepared-outcome env corrected t db h =
    let (j, db1, h1, h2) = bind-ok _ _ db h in
    let (transactions, jobs, valid) = prepared-writes env corrected t db h1 in
    let (same, same_jobs) = audited env t j db1 h2 in (same ∙ transactions, same_jobs ∙ jobs, valid)

failed-status :
    (s : TransferStatus)
    → not (status_eq s TransferStatus.payout_failed) ≡ false
    → s ≡ TransferStatus.payout_failed
failed-status s h = ground arith

-- The row that a second call finds, by the reference of the first.
found-retried :
    (reference : String) (target : Option String) (t : Transaction) (rows : List Transaction)
    → find_where (by_reference reference) rows ≡ some t
    → status_eq t.status TransferStatus.payout_failed ≡ true
    → find_where
        (by_reference reference)
        (update_where (with_status t.id TransferStatus.payout_failed) (retried target) rows)
      ≡ some (retried target t)
found-retried reference target t rows h e =
    find_where-update_selected (by_reference reference)
      (with_status t.id TransferStatus.payout_failed) (retried target) rows (λ x. refl) h
      (rw (eq_refl t.id, e) refl)

second-refused :
    (env : Env) (reference : String) (corrected target : Option String) (t : Transaction) (db : Db)
    → find_where (by_reference reference) db.transactions ≡ some (retried target t)
    → prepare_manual_payout_retry env reference corrected db
      ≡ (err (plain "Only a failed payout can be manually retried"), db)
unfolding prepare_manual_payout_retry transaction_of ◌>>=◌
second-refused env reference corrected target t db h = rw (h)

-- A manual payout retry is prepared from a failed payout, and once. If the call returns, the
-- transfer found under the reference was in PAYOUT_FAILED and a corrected beneficiary that is given
-- is a current one of the same sender, corridor and payout currency; afterwards that transfer is in
-- PENDING_PAYOUT with the beneficiary to retry and without a failure reason, and one payout job is
-- added. The same call again, at any time and with any corrected beneficiary, throws and writes
-- nothing.
pub prepare_manual_payout_retry-once :
    (env : Env) (reference : String) (corrected : Option String) (db : Db) (job : WorkerJobInput)
    (db' : Db) (later : Env) (again : Option String)
    → prepare_manual_payout_retry env reference corrected db ≡ (ok job, db')
    → (t : Transaction) × (find_where (by_reference reference) db.transactions ≡ some t)
      × (t.status ≡ TransferStatus.payout_failed)
      × ((truthy corrected && not (is_valid_target t (corrected_row corrected db.beneficiaries)))
          ≡ false)
      × (find_where (by_reference reference) db'.transactions
          ≡ some (retried (retry_target corrected t) t))
      × (db'.jobs ≡ db.jobs ++ manual_job env (retry_target corrected t) t ∷ [])
      × (prepare_manual_payout_retry later reference again db'
          ≡ (err (plain "Only a failed payout can be manually retried"), db'))
unfolding prepare_manual_payout_retry transaction_of assert_transition input_of
prepare_manual_payout_retry-once env reference corrected db job db' later again h =
    let (t, found, h1) = lookup-ok _ _ _ db h in
    let (failed, h2) = throw_if-ok _ _ _ db h1 in
    let (_, h3) = throw_if-ok _ _ _ db h2 in
    let (transactions, jobs, valid) = prepared-outcome env corrected t db h3 in
    let status = failed-status t.status failed in
    let after : find_where (by_reference reference) db'.transactions
        ≡ some (retried (retry_target corrected t) t) =
      rw transactions (
        found-retried reference (retry_target corrected t) t db.transactions found
          (rw status refl)) in
    (
      t,
      found,
      status,
      valid,
      after,
      jobs,
      second-refused later reference again (retry_target corrected t) t db' after,
    )
