-- ===== src/Tests/WorkerExamples.antt =====
-- The worker, at concrete inputs.
use zongo_v.Prelude.{
  ◌≡◌, refl, true, false, ◌&&◌, not, none, some, [], ◌∷◌, ◌++◌, arith, find_where, update_where,
  truthy,
}
use zongo_v.Domain.Lifecycle.{TransferStatus, can_transition}
use zongo_v.Db.Rows.{JobStatus, Transaction, Payload, Db}
use zongo_v.Db.Monad.{ok, err, plain, ◌>>=◌}
use zongo_v.Ledger.Posting.{LifecycleEvent, by_id}
use zongo_v.Worker.Ports.{JobKind, WorkerJobInput, WorkerJobResult}
use zongo_v.Worker.Store.{job_by_id, by_reference, transaction_of}
use zongo_v.Worker.Failure.{fail}
use zongo_v.Worker.Claim.{claim, is_claimable}
use zongo_v.Worker.Recheck.{assert_transition}
use zongo_v.Worker.Process.{process, run_claimed}
use zongo_v.Worker.Callback.{handle_partner_callback}
use zongo_v.Worker.Retry.{
  retry_target, is_valid_target, corrected_row, retried, manual_job, prepare_manual_payout_retry,
  prepare_retry, check_target, claim_retry, create_job,
}
use zongo_v.Worker.Exclusion.{process-skips_claimed}
use zongo_v.Worker.Callbacks.{Stepped, handle_partner_callback-steps}
use zongo_v.Worker.Failures.{fail-sets_status}
use zongo_v.Worker.Pauses.{run_claimed-waits}
use zongo_v.Worker.Retries.{prepare_manual_payout_retry-once}
use zongo_v.Tests.Data.{
  test_env, later_env, test_services, silent_services, test_db, old_transfer, job_input,
}

abbrev claimed_db : Db
claimed_db = (claim test_env.now "j1" test_db).1

claimed_db-claimed : claim test_env.now "j1" test_db ≡ (ok true, claimed_db)
unfolding claim is_claimable ◌>>=◌
claimed_db-claimed = refl

process-skips_claimed_example :
    process later_env test_services job_input claimed_db ≡ (ok WorkerJobResult.skipped, claimed_db)
process-skips_claimed_example =
    process-skips_claimed test_env.now later_env test_services job_input "j1" test_db claimed_db
      refl (omega arith) claimed_db-claimed (omega arith)

handle_partner_callback-steps_example :
    Stepped old_transfer
      (handle_partner_callback test_env test_services "ZNG-1" TransferStatus.collection_success
        "P-1" test_db).1.transactions
handle_partner_callback-steps_example =
    handle_partner_callback-steps test_env test_services "ZNG-1" TransferStatus.collection_success
      "P-1" old_transfer test_db refl

fail-sets_status_example :
    find_where
      (by_id "t1")
      (fail test_env "j1" old_transfer JobKind.status_recheck "timeout" false
        test_db).1.transactions
    ≡ some (record old_transfer {
      status = TransferStatus.payout_failed;
      failed_reason = some "timeout";
    })
fail-sets_status_example =
    fail-sets_status test_env "j1" old_transfer JobKind.status_recheck "timeout" false old_transfer
      test_db refl refl

-- The collection control has no row, so collections are held back.
run_claimed-waits_example :
    let (r, db') = run_claimed test_env test_services job_input "j1" test_db in
    (r ≡ ok WorkerJobResult.failed)
    × (db'.jobs
        ≡ update_where
            (job_by_id "j1")
            (λ j. record j {
              status = JobStatus.pending;
              last_error = some "Pilot money movement is paused by operational control";
              lease_expires_at = none;
            })
            test_db.jobs)
    × (db'.transactions ≡ test_db.transactions)
    × (db'.ledger_entries ≡ test_db.ledger_entries)
    × (run_claimed test_env silent_services job_input "j1" test_db ≡ (r, db'))
run_claimed-waits_example =
    run_claimed-waits test_env test_services silent_services LifecycleEvent.collection "j1"
      job_input test_db refl refl refl

abbrev failed_payout : Transaction
failed_payout = record old_transfer {
  status = TransferStatus.payout_failed;
  failed_reason = some "closed account";
}

abbrev failed_db : Db
failed_db = record test_db { transactions = failed_payout ∷ [] }

abbrev retry_db : Db
retry_db = (prepare_manual_payout_retry test_env "ZNG-1" (some "b1") failed_db).1

abbrev retry_input : WorkerJobInput
retry_input = record {
  transaction_reference = "ZNG-1";
  kind = JobKind.payout;
  payload = Payload.manual_flag;
  persisted_job_id = some "manual-payout-retry:t1:7";
}

retry_db-prepared :
    prepare_manual_payout_retry test_env "ZNG-1" (some "b1") failed_db ≡ (ok retry_input, retry_db)
unfolding prepare_manual_payout_retry transaction_of assert_transition can_transition prepare_retry
    check_target is_valid_target claim_retry create_job ◌>>=◌
retry_db-prepared = refl

prepare_manual_payout_retry-once_example :
    (t : Transaction) × (find_where (by_reference "ZNG-1") failed_db.transactions ≡ some t)
    × (t.status ≡ TransferStatus.payout_failed)
    × ((truthy (some "b1")
          && not (is_valid_target t (corrected_row (some "b1") failed_db.beneficiaries)))
        ≡ false)
    × (find_where (by_reference "ZNG-1") retry_db.transactions
        ≡ some (retried (retry_target (some "b1") t) t))
    × (retry_db.jobs ≡ failed_db.jobs ++ manual_job test_env (retry_target (some "b1") t) t ∷ [])
    × (prepare_manual_payout_retry later_env "ZNG-1" none retry_db
        ≡ (err (plain "Only a failed payout can be manually retried"), retry_db))
prepare_manual_payout_retry-once_example =
    prepare_manual_payout_retry-once test_env "ZNG-1" (some "b1") failed_db retry_input retry_db
      later_env none retry_db-prepared
