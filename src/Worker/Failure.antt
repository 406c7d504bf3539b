-- ===== src/Worker/Failure.antt =====
-- `fail` of zongo/apps/worker/src/worker-job.processor.ts.
use zongo_v.Prelude.{Bool, true, false, ◌&&◌, some, [], ◌∷◌, String, template, if◌then◌else◌}
use zongo_v.Domain.Lifecycle.{TransferStatus}
use zongo_v.Db.Rows.{Transaction, business, technical}
use zongo_v.Db.Env.{Env}
use zongo_v.Db.Monad.{Action, ⊤, transaction, ◌>>◌}
use zongo_v.Ledger.Posting.{append_audit}
use zongo_v.Worker.Ports.{JobKind, kind_lower}
use zongo_v.Worker.Store.{update_transaction, update_job, failed_job}
use zongo_v.Worker.Sessions.{resolve_waiting_session}

abbrev pub is_collection : JobKind → Bool
is_collection JobKind.collection = true
is_collection JobKind.payout = false
is_collection JobKind.status_recheck = false
is_collection JobKind.notification = false
is_collection JobKind.reconciliation = false

-- The status that a failed job leaves on its transfer: every kind but a collection fails the payout.
abbrev pub failure_status : JobKind → TransferStatus
failure_status kind =
    if is_collection kind then TransferStatus.collection_failed else TransferStatus.payout_failed

abbrev pub mark_failed : TransferStatus → String → Transaction → Transaction
mark_failed status message t = record t { status = status; failed_reason = some message }

unfoldable pub fail : Env → String → Transaction → JobKind → String → Bool → Action ⊤
fail env job_id t kind message retryable =
    if is_collection kind && retryable
    then (do
      update_job job_id (failed_job message)
      append_audit technical "transfer.collection.retryable-failure" (some t.id) env.now)
    else (do
      transaction (do
        update_transaction t.id (mark_failed (failure_status kind) message)
        update_job job_id (failed_job message))
      append_audit business (template ("transfer." ∷ kind_lower kind ∷ ".failed" ∷ [])) (some t.id)
          env.now
      resolve_waiting_session env t.id (failure_status kind))
