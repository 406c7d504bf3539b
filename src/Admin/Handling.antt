-- ===== src/Admin/Handling.antt =====
-- Alerts and transfers under the hands of the administration (zongo/apps/admin/src/admin.service.ts).
-- The services that the class takes as optional are there.
use zongo_v.Prelude.{
  Bool, not, ◌&&◌, Option, none, some, List, [], ◌∷◌, ◌++◌, String, any_where, update_where,
  is_some, get_or, template, if◌then◌else◌,
}
use zongo_v.Db.Rows.{AlertDelivery, AdminRole, Transaction, WorkerJob, JobType, JobStatus, Payload}
use zongo_v.Db.Env.{Env}
use zongo_v.Db.Monad.{forbidden, Action, ⊤, pure, gets, modify, throw_if, when, ◌>>=◌, ◌>>◌}
use zongo_v.Worker.Ports.{WorkerJobInput}
use zongo_v.Worker.Store.{new_job, job_by_key, transaction_of, update_transaction}
use zongo_v.Worker.Retry.{create_job, prepare_manual_payout_retry}
use zongo_v.Alerts.Outbox.{has_delivery_id, unescalated, update_delivery}
use zongo_v.Admin.Actors.{require_actor, record_sensitive}

pub data AlertHandling : Type 0 where
  accepted already_handled : AlertHandling

abbrev pub unacknowledged : String → AlertDelivery → Bool
unacknowledged id d = has_delivery_id id d && not (is_some d.acknowledged_at)

-- `updateMany`, and the record of the action where a row was changed.
unfoldable pub handle_alert :
    Env → (AlertDelivery → Bool) → (AlertDelivery → AlertDelivery) → String → Action AlertHandling
handle_alert env p f name = do
  is_handled ← gets (λ db. any_where p db.alert_deliveries)
  update_delivery p f
  when is_handled (record_sensitive env name)
  pure (if is_handled then AlertHandling.accepted else AlertHandling.already_handled)

unfoldable pub acknowledge_alert : Env → String → String → String → Action AlertHandling
acknowledge_alert env actor_id alert_id reason = do
  actor ← require_actor actor_id AdminRole.ops
  throw_if (env.is_blank reason) forbidden
  handle_alert env (unacknowledged alert_id)
      (λ d. record d { acknowledged_at = some env.now; acknowledged_by = some actor.id })
      "admin.alert.acknowledged"

unfoldable pub escalate_alert : Env → String → String → String → Action AlertHandling
escalate_alert env actor_id alert_id reason = do
  actor ← require_actor actor_id AdminRole.ops
  throw_if (env.is_blank reason) forbidden
  handle_alert env (unescalated alert_id)
      (λ d. record d { escalated_at = some env.now; escalated_by = some actor.id })
      "admin.alert.escalated"

abbrev pub asked_key : Env → String → Option String → String
asked_key env id key =
    template ("status-recheck:" ∷ id ∷ ":" ∷ get_or key (env.decimal env.now) ∷ [])

abbrev pub asked_job : Env → String → Option String → Transaction → WorkerJob
asked_job env actor_id key t =
    new_job env (asked_key env t.id key) JobType.status_recheck t.reference (some t.id)
      (Payload.requested_by actor_id)

abbrev pub queued : Env → Transaction → Transaction
queued env t = record t {
  last_status_recheck_at = some env.now;
  last_status_recheck_result = some "QUEUED";
}

unfoldable pub recheck_transfer : Env → String → String → Option String → Action WorkerJob
recheck_transfer env actor_id reference key = do
  actor ← require_actor actor_id AdminRole.ops
  t ← transaction_of reference
  create_job (asked_job env actor.id key t)
  update_transaction t.id (queued env)
  record_sensitive env "admin.transfer.status-recheck.queued"
  pure (asked_job env actor.id key t)

abbrev pub asked_reconciliation : Env → String → Transaction → WorkerJob
asked_reconciliation env actor_id t =
    new_job env (template ("reconciliation:" ∷ t.id ∷ [])) JobType.reconciliation t.reference
      (some t.id) (Payload.requested_by actor_id)

abbrev pub requeued : WorkerJob → WorkerJob
requeued j = record j { status = JobStatus.pending; last_error = none }

-- `workerJob.upsert(…)` with an update of the row that is there.
abbrev pub put_job : WorkerJob → List WorkerJob → List WorkerJob
put_job j jobs =
    if any_where (job_by_key j.dedup_key) jobs
    then update_where (job_by_key j.dedup_key) requeued jobs
    else jobs ++ j ∷ []

unfoldable pub queue_reconciliation : Env → String → String → Action ⊤
queue_reconciliation env actor_id reference = do
  actor ← require_actor actor_id AdminRole.ops
  t ← transaction_of reference
  modify (λ db. record db { jobs = put_job (asked_reconciliation env actor.id t) db.jobs })
  record_sensitive env "admin.reconciliation.queued"

unfoldable pub retry_failed_payout : Env → String → String → Option String → Action WorkerJobInput
retry_failed_payout env actor_id reference corrected = do
  _ ← require_actor actor_id AdminRole.ops
  job ← prepare_manual_payout_retry env reference corrected
  _ ← transaction_of reference
  record_sensitive env "admin.transfer.payout-retry.prepared"
  pure job
