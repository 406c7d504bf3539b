-- ===== src/Dispatch/Loop.antt =====
-- `dispatch` of zongo/apps/worker/src/durable-job-dispatcher.service.ts. What it logs, and the counts
-- in the payload of its audit event, are not kept.
use zongo_v.Prelude.{Bool, true, false, ◌&&◌, Option, none, some, List, [], ◌∷◌, if◌then◌else◌}
use zongo_v.Db.Rows.{WorkerJob, Db, technical}
use zongo_v.Db.Env.{Env}
use zongo_v.Db.Monad.{Result, ok, err, Action, ⊤, pure, when, ◌>>=◌, ◌>>◌}
use zongo_v.Exposure.Monitor.{evaluate}
use zongo_v.Ledger.Posting.{append_audit}
use zongo_v.Worker.Ports.{JobKind, Services}
use zongo_v.Worker.Process.{process}
use zongo_v.Dispatch.Select.{poll, kind_of, is_passed_over, input_of}
use zongo_v.Dispatch.Sweep.{
  Dispatcher, Order, Answer, Ending, swept, not_due, failed, sweep_reconciliation, sweep_statuses,
}

-- What a dispatcher is built with.
pub record Wiring : Type 0 where
  pub services : Services
  pub order : Order
  -- what the database does in the two sweeps
  pub reconciliation_answer : Answer
  pub status_answer : Answer
  -- `this.monitor` is there
  pub monitored : Bool
  -- `this.audit` is there
  pub audited : Bool

unfoldable pub process_as : Env → Services → WorkerJob → Option JobKind → Action ⊤
process_as env services j none = pure tt
process_as env services j (some kind) = do _ ← process env services (input_of j kind); pure tt

-- The loop over the batch.
unfoldable pub process_all : Env → Services → List WorkerJob → Action ⊤
process_all env services [] = pure tt
process_all env services (j ∷ js) = do
  when (if is_passed_over j then false else true) (process_as env services j (kind_of j.job_type))
  process_all env services js

-- The rest of a round, after the sweeps.
unfoldable pub run_batch : Env → Wiring → Bool → List WorkerJob → Action ⊤
run_batch env wiring reconciled jobs = do
  process_all env wiring.services jobs
  when (reconciled && wiring.audited)
      (append_audit technical "reconciliation.sweep.completed" none env.now)

abbrev pub has_swept : Ending → Bool
has_swept swept = true
has_swept not_due = false
has_swept failed = false

-- An error of a sweep ends the round.
abbrev pub after_statuses : Env → Wiring → Bool → Ending × Dispatcher × Db → Dispatcher × Db
after_statuses env wiring reconciled (failed, d, db) = (d, db)
after_statuses env wiring reconciled (ending, d, db) =
    (d, (run_batch env wiring reconciled (poll db) db).1)

abbrev pub after_reconciliation : Env → Wiring → Ending × Dispatcher × Db → Dispatcher × Db
after_reconciliation env wiring (failed, d, db) = (d, db)
after_reconciliation env wiring (ending, d, db) =
    after_statuses env wiring (has_swept ending)
      (sweep_statuses env wiring.order wiring.status_answer d db)

unfoldable pub sweep_and_run : Env → Wiring → Dispatcher → Db → Dispatcher × Db
sweep_and_run env wiring d db =
    after_reconciliation env wiring
      (sweep_reconciliation env wiring.order wiring.reconciliation_answer d db)

-- An error of the monitor ends the round before the sweeps.
abbrev pub after_monitor : Env → Wiring → Dispatcher → Result ⊤ × Db → Dispatcher × Db
after_monitor env wiring d (err e, db) = (d, db)
after_monitor env wiring d (ok _, db) = sweep_and_run env wiring d db

abbrev pub idle : Dispatcher × Db → Dispatcher × Db
idle (d, db) = (record d { running = false }, db)

-- `dispatch`: errors are logged, and `running` is reset at the end.
unfoldable pub dispatch : Env → Wiring → Dispatcher → Db → Dispatcher × Db
dispatch env wiring d db =
    if d.running
    then (d, db)
    else idle (
        after_monitor env wiring (record d { running = true })
          (when wiring.monitored (evaluate env) db))
