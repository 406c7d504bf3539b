-- ===== src/Worker/Process.antt =====
-- `process` of zongo/apps/worker/src/worker-job.processor.ts.
use zongo_v.Prelude.{true, false, Option, none, some, find_where, String, if◌then◌else◌}
use zongo_v.Db.Rows.{Transaction, Payload, technical}
use zongo_v.Db.Env.{Env}
use zongo_v.Db.Monad.{
  Thrown, domain, not_found, unique_violation, too_many_requests, forbidden, unauthorized, plain,
  Action, ⊤, pure, gets, try_catch, ◌>>=◌, ◌>>◌,
}
use zongo_v.Ledger.Posting.{LifecycleEvent, append_audit, persist_reconciliation}
use zongo_v.Worker.Ports.{JobKind, WorkerJobInput, WorkerJobResult, Services}
use zongo_v.Worker.Store.{update_job, succeed_job, fail_job, transaction_of, by_reference}
use zongo_v.Worker.Failure.{fail}
use zongo_v.Worker.Claim.{durable_job, claim}
use zongo_v.Worker.Controls.{
  notifications_paused, money_paused, postpone_notification, postpone_money,
}
use zongo_v.Worker.Recheck.{recheck_status}
use zongo_v.Worker.Leg.{run_leg}
use zongo_v.Worker.Notify.{process_notification}

unfoldable pub run_notification : Env → Services → String → Payload → Action WorkerJobResult
run_notification env services id payload = do
  is_paused ← gets (λ db. notifications_paused db.controls)
  if is_paused
      then (do postpone_notification id; pure WorkerJobResult.failed)
      else (do process_notification env services id payload; pure WorkerJobResult.succeeded)

unfoldable pub run_money :
    Env → Services → LifecycleEvent → String → WorkerJobInput → Action WorkerJobResult
run_money env services leg id job = do
  is_paused ← gets (λ db. money_paused leg job.payload db.controls)
  if is_paused
      then (do postpone_money env id; pure WorkerJobResult.failed)
      else (do t ← transaction_of job.transaction_reference; run_leg env services leg id t)

unfoldable pub run_reconciliation : Env → String → WorkerJobInput → Action WorkerJobResult
run_reconciliation env id job = do
  t ← transaction_of job.transaction_reference
  _ ← persist_reconciliation t.id
  update_job id (succeed_job env)
  pure WorkerJobResult.succeeded

unfoldable pub run_recheck : Env → Services → String → WorkerJobInput → Action WorkerJobResult
run_recheck env services id job = do
  t ← transaction_of job.transaction_reference
  recheck_status env services id t

-- The body of the `try`, by the kind of the job.
abbrev pub run_job : Env → Services → String → WorkerJobInput → JobKind → Action WorkerJobResult
run_job env services id job JobKind.notification = run_notification env services id job.payload
run_job env services id job JobKind.collection =
    run_money env services LifecycleEvent.collection id job
run_job env services id job JobKind.payout = run_money env services LifecycleEvent.payout id job
run_job env services id job JobKind.reconciliation = run_reconciliation env id job
run_job env services id job JobKind.status_recheck = run_recheck env services id job

abbrev pub report_invalid : Env → Option Transaction → Action ⊤
report_invalid env none = pure tt
report_invalid env (some t) =
    append_audit technical "worker.job.invalid-transition" (some t.id) env.now

abbrev pub fail_transfer : Env → String → JobKind → String → Option Transaction → Action ⊤
fail_transfer env id kind message none = fail_job id message
fail_transfer env id kind message (some t) = fail env id t kind message false

-- The `catch` of a job on a transfer: a `DomainError` fails the job alone.
abbrev pub handle_error : Env → String → JobKind → Thrown → Option Transaction → Action ⊤
handle_error env id kind (domain code) t = do
  fail_job id (env.message (domain code))
  report_invalid env t
handle_error env id kind not_found t = fail_transfer env id kind (env.message not_found) t
handle_error env id kind unique_violation t =
    fail_transfer env id kind (env.message unique_violation) t
handle_error env id kind (too_many_requests delay) t =
    fail_transfer env id kind (env.message (too_many_requests delay)) t
handle_error env id kind forbidden t = fail_transfer env id kind (env.message forbidden) t
handle_error env id kind unauthorized t = fail_transfer env id kind (env.message unauthorized) t
handle_error env id kind (plain text) t = fail_transfer env id kind (env.message (plain text)) t

unfoldable pub handle_transfer_error :
    Env → String → WorkerJobInput → JobKind → Thrown → Action WorkerJobResult
handle_transfer_error env id job kind e = do
  t ← gets (λ db. find_where (by_reference job.transaction_reference) db.transactions)
  handle_error env id kind e t
  pure WorkerJobResult.failed

unfoldable pub handle_notification_error : Env → String → Thrown → Action WorkerJobResult
handle_notification_error env id e = do fail_job id (env.message e); pure WorkerJobResult.failed

abbrev pub on_error : Env → String → WorkerJobInput → JobKind → Thrown → Action WorkerJobResult
on_error env id job JobKind.notification e = handle_notification_error env id e
on_error env id job JobKind.collection e = handle_transfer_error env id job JobKind.collection e
on_error env id job JobKind.payout e = handle_transfer_error env id job JobKind.payout e
on_error env id job JobKind.status_recheck e =
    handle_transfer_error env id job JobKind.status_recheck e
on_error env id job JobKind.reconciliation e =
    handle_transfer_error env id job JobKind.reconciliation e

-- What follows a claim that found a job to claim.
unfoldable pub run_claimed : Env → Services → WorkerJobInput → String → Action WorkerJobResult
run_claimed env services job id = do
  append_audit technical "worker.job.claimed" none env.now
  try_catch (run_job env services id job job.kind) (on_error env id job job.kind)

unfoldable pub process : Env → Services → WorkerJobInput → Action WorkerJobResult
process env services job = do
  id ← durable_job env job
  is_claimed ← claim env.now id
  elim is_claimed [ true ↦ run_claimed env services job id | false ↦ pure WorkerJobResult.skipped ]
