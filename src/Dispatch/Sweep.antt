-- ===== src/Dispatch/Sweep.antt =====
-- The two sweeps of zongo/apps/worker/src/durable-job-dispatcher.service.ts. The rows have no
-- `updatedAt`: the order of a query by it is a parameter.
use zongo_v.Prelude.{
  ℕ, ◌+◌, ◌/◌, Bool, some, List, [], ◌∷◌, String, take, select_where, leb, template, if◌then◌else◌,
}
use zongo_v.Domain.Lifecycle.{TransferStatus}
use zongo_v.Db.Rows.{Transaction, WorkerJob, JobType, Payload, Db}
use zongo_v.Db.Env.{Env}
use zongo_v.Exposure.Monitor.{has_status}
use zongo_v.Worker.Store.{new_job, add_job, bucket_of, recheck_key}

-- The fields of the dispatcher.
pub record Dispatcher : Type 0 where
  pub running : Bool
  pub last_reconciliation_sweep : ℕ
  pub last_status_sweep : ℕ

-- `orderBy: { updatedAt: 'asc' }`
abbrev pub Order : Type 0
Order = List Transaction → List Transaction

abbrev pub sweep_size : ℕ
sweep_size = 100

abbrev pub chosen_with : Order → List TransferStatus → Db → List Transaction
chosen_with order statuses db =
    take sweep_size (order (select_where (has_status statuses) db.transactions))

-- The upserts of a sweep, one for each transfer.
unfoldable pub add_jobs :
    (Transaction → WorkerJob) → List Transaction → List WorkerJob → List WorkerJob
add_jobs make [] jobs = jobs
add_jobs make (t ∷ ts) jobs = add_jobs make ts (add_job (make t) jobs)

abbrev pub reconcilable : List TransferStatus
reconcilable =
    TransferStatus.collection_success ∷ TransferStatus.pending_payout
    ∷ TransferStatus.payout_success ∷ TransferStatus.collection_failed
    ∷ TransferStatus.payout_failed ∷ []

abbrev pub reconciliation_bucket : Env → ℕ
reconciliation_bucket env = env.now / env.reconciliation_interval_ms

abbrev pub reconciliation_key : Env → String → String
reconciliation_key env id =
    template ("reconciliation:" ∷ id ∷ ":" ∷ env.decimal (reconciliation_bucket env) ∷ [])

abbrev pub reconciliation_job : Env → Transaction → WorkerJob
reconciliation_job env t =
    new_job env (reconciliation_key env t.id) JobType.reconciliation t.reference (some t.id)
      (Payload.sweep "CADENCE_SWEEP" (reconciliation_bucket env))

-- `now - lastSweepAt >= intervalMs`
abbrev pub is_due : ℕ → ℕ → ℕ → Bool
is_due last interval now = leb (last + interval) now

-- What the database does with the query and then with the transaction of a sweep: it answers both,
-- or one of them throws.
pub data Answer : Type 0 where
  answers query_throws write_throws : Answer

-- How a sweep ends: it swept, the interval is not over, or it throws.
pub data Ending : Type 0 where
  swept not_due failed : Ending

abbrev pub at_reconciliation : Env → Dispatcher → Dispatcher
at_reconciliation env d = record d { last_reconciliation_sweep = env.now }

-- The query and the writes of `enqueueReconciliationSweep`. Its time is set between them.
abbrev pub reconcile_all : Env → Order → Answer → Dispatcher → Db → Ending × Dispatcher × Db
reconcile_all env order answers d db = (
  swept,
  at_reconciliation env d,
  record db {
    jobs = add_jobs (reconciliation_job env) (chosen_with order reconcilable db) db.jobs;
  },
)
reconcile_all env order query_throws d db = (failed, d, db)
reconcile_all env order write_throws d db = (failed, at_reconciliation env d, db)

-- `enqueueReconciliationSweep`: how it ends, the dispatcher and the database after it.
unfoldable pub sweep_reconciliation :
    Env → Order → Answer → Dispatcher → Db → Ending × Dispatcher × Db
sweep_reconciliation env order answer d db =
    if is_due d.last_reconciliation_sweep env.reconciliation_interval_ms env.now
    then reconcile_all env order answer d db
    else (not_due, d, db)

abbrev pub unsettled : List TransferStatus
unsettled = TransferStatus.pending_collection ∷ TransferStatus.pending_payout ∷ []

abbrev pub status_job : Env → Transaction → WorkerJob
status_job env t =
    new_job env (recheck_key env t.id) JobType.status_recheck t.reference (some t.id)
      (Payload.sweep "PENDING_PROVIDER_SWEEP" (bucket_of env))

abbrev pub at_status : Env → Dispatcher → Dispatcher
at_status env d = record d { last_status_sweep = env.now }

-- The query and the writes of `enqueuePendingStatusRechecks`.
abbrev pub recheck_all : Env → Order → Answer → Dispatcher → Db → Ending × Dispatcher × Db
recheck_all env order answers d db = (
  swept,
  at_status env d,
  record db { jobs = add_jobs (status_job env) (chosen_with order unsettled db) db.jobs },
)
recheck_all env order query_throws d db = (failed, d, db)
recheck_all env order write_throws d db = (failed, at_status env d, db)

-- `enqueuePendingStatusRechecks`
unfoldable pub sweep_statuses : Env → Order → Answer → Dispatcher → Db → Ending × Dispatcher × Db
sweep_statuses env order answer d db =
    if is_due d.last_status_sweep env.recheck_interval_ms env.now
    then recheck_all env order answer d db
    else (not_due, d, db)
