-- ===== src/Worker/Leg.antt =====
-- The collection and the payout of a transfer, in `process` of
-- zongo/apps/worker/src/worker-job.processor.ts. A leg is the ledger event that it records.
use zongo_v.Prelude.{
  Bool, ◌||◌, not, Option, none, some, get_or, [], ◌∷◌, String, template, if◌then◌else◌,
}
use zongo_v.Domain.Lifecycle.{TransferStatus, no_context, status_eq}
use zongo_v.Db.Rows.{Transaction, JobType, Payload, business}
use zongo_v.Db.Env.{Env}
use zongo_v.Db.Monad.{Action, ⊤, pure, throw, reads, when, transaction, ◌>>=◌, ◌>>◌}
use zongo_v.Ledger.Posting.{
  LifecycleEvent, append_audit, append_lifecycle_entries, persist_reconciliation,
}
use zongo_v.Worker.Ports.{
  JobKind, kind_lower, WorkerJobResult, PartnerRequest, PartnerError, PartnerResult, Services,
}
use zongo_v.Worker.Store.{
  update_transaction, update_job, succeed_job, payout_job, new_job, upsert_job, recheck_key,
}
use zongo_v.Worker.Sessions.{resolve_waiting_session}
use zongo_v.Worker.Failure.{fail}
use zongo_v.Worker.Request.{request_of}
use zongo_v.Worker.Recheck.{assert_transition, with_index}

abbrev pub kind_of : LifecycleEvent → JobKind
kind_of LifecycleEvent.collection = JobKind.collection
kind_of LifecycleEvent.payout = JobKind.payout

abbrev pub processing_status : LifecycleEvent → TransferStatus
processing_status LifecycleEvent.collection = TransferStatus.pending_collection
processing_status LifecycleEvent.payout = TransferStatus.pending_payout

abbrev pub succeeded_status : LifecycleEvent → TransferStatus
succeeded_status LifecycleEvent.collection = TransferStatus.collection_success
succeeded_status LifecycleEvent.payout = TransferStatus.payout_success

abbrev pub set_status : TransferStatus → Transaction → Transaction
set_status status t = record t { status = status }

-- `partnerReferenceBlindIndex`
abbrev pub provider_index : Env → Services → String → Option String
provider_index env services reference =
    if services.protected then some (env.blind_index reference "provider-reference") else none

abbrev pub leg_audit : LifecycleEvent → String → String
leg_audit leg word = template ("transfer." ∷ kind_lower (kind_of leg) ∷ "." ∷ word ∷ [])

abbrev pub is_failed : TransferStatus → Bool
is_failed s =
    status_eq s TransferStatus.collection_failed || status_eq s TransferStatus.payout_failed

abbrev pub is_processing : TransferStatus → Bool
is_processing s =
    status_eq s TransferStatus.pending_collection || status_eq s TransferStatus.pending_payout

abbrev pub leg_failed : TransferStatus → String → Option String → Transaction → Transaction
leg_failed status reference index t = record t {
  status = status;
  failed_reason = some "Provider returned a terminal failure";
  partner_reference = some reference;
  partner_reference_blind_index = with_index index t.partner_reference_blind_index;
}

abbrev pub leg_pending : LifecycleEvent → String → Option String → Transaction → Transaction
leg_pending leg reference index t = record t {
  status = processing_status leg;
  partner_reference = some reference;
  partner_reference_blind_index = with_index index t.partner_reference_blind_index;
  last_status_recheck_result = some "PENDING_PROVIDER_ACCEPTANCE";
}

abbrev pub leg_succeeded : Env → LifecycleEvent → String → Option String → Transaction → Transaction
leg_succeeded env LifecycleEvent.collection reference index t = record t {
  status = TransferStatus.collection_success;
  collection_completed_at = some env.now;
  partner_reference = some reference;
  partner_reference_blind_index = with_index index t.partner_reference_blind_index;
}
leg_succeeded env LifecycleEvent.payout reference index t = record t {
  status = TransferStatus.payout_success;
  payout_completed_at = some env.now;
  partner_reference = some reference;
  partner_reference_blind_index = with_index index t.partner_reference_blind_index;
}

-- The partner refused for good.
unfoldable pub finish_failed :
    Env
    → LifecycleEvent
    → String
    → Transaction
    → TransferStatus
    → String
    → Option String
    → Action WorkerJobResult
finish_failed env leg id t status reference index = do
  transaction (do
    update_transaction t.id (leg_failed status reference index)
    update_job id (succeed_job env))
  append_audit business (leg_audit leg "failed") (some t.id) env.now
  resolve_waiting_session env t.id status
  pure WorkerJobResult.succeeded

-- The partner has accepted and will settle later: a recheck is queued.
unfoldable pub finish_pending :
    Env → LifecycleEvent → String → Transaction → String → Option String → Action WorkerJobResult
finish_pending env leg id t reference index = do
  transaction (do
    update_transaction t.id (leg_pending leg reference index)
    update_job id (succeed_job env)
    upsert_job (
        new_job env (recheck_key env t.id) JobType.status_recheck t.reference (some t.id)
          (Payload.reason "PROVIDER_ACCEPTED_PENDING")))
  append_audit business (leg_audit leg "accepted-pending") (some t.id) env.now
  pure WorkerJobResult.succeeded

abbrev pub then_payout : Env → LifecycleEvent → Transaction → Action ⊤
then_payout env LifecycleEvent.collection t = payout_job env t
then_payout env LifecycleEvent.payout t = pure tt

-- The partner has settled.
unfoldable pub finish_succeeded :
    Env → LifecycleEvent → String → Transaction → String → Option String → Action WorkerJobResult
finish_succeeded env leg id t reference index = do
  append_lifecycle_entries env.now t.id leg
  transaction (do
    update_transaction t.id (leg_succeeded env leg reference index)
    update_job id (succeed_job env)
    then_payout env leg t)
  _ ← persist_reconciliation t.id
  resolve_waiting_session env t.id (succeeded_status leg)
  append_audit business (leg_audit leg "succeeded") (some t.id) env.now
  pure WorkerJobResult.succeeded

-- What the partner's status leads to.
abbrev pub finish :
    Env
    → LifecycleEvent
    → String
    → Transaction
    → TransferStatus
    → String
    → Option String
    → Action WorkerJobResult
finish env leg id t status reference index =
    if is_failed status
    then finish_failed env leg id t status reference index
    else (if is_processing status
        then finish_pending env leg id t reference index
        else finish_succeeded env leg id t reference index)

unfoldable pub accept_leg :
    Env
    → Services
    → LifecycleEvent
    → String
    → Transaction
    → String
    → TransferStatus
    → Action WorkerJobResult
accept_leg env services leg id t reference status = do
  assert_transition (processing_status leg) status no_context
  finish env leg id t status reference (provider_index env services reference)

unfoldable pub refuse_leg :
    Env → LifecycleEvent → String → Transaction → PartnerError → Action WorkerJobResult
refuse_leg env leg id t error = do
  fail env id t (kind_of leg) error.message error.retryable
  pure WorkerJobResult.failed

abbrev pub settle_leg :
    Env → Services → LifecycleEvent → String → Transaction → PartnerResult → Action WorkerJobResult
settle_leg env services leg id t (PartnerResult.accepted reference status) =
    accept_leg env services leg id t reference (get_or status (succeeded_status leg))
settle_leg env services leg id t (PartnerResult.refused error) = refuse_leg env leg id t error
settle_leg env services leg id t (PartnerResult.threw e) = throw e

abbrev pub call_partner : Services → LifecycleEvent → PartnerRequest → PartnerResult
call_partner services LifecycleEvent.collection request = services.collect request
call_partner services LifecycleEvent.payout request = services.payout request

unfoldable pub run_leg :
    Env → Services → LifecycleEvent → String → Transaction → Action WorkerJobResult
run_leg env services leg id t = do
  assert_transition t.status (processing_status leg) no_context
  when (not (status_eq t.status (processing_status leg)))
      (update_transaction t.id (set_status (processing_status leg)))
  request ← reads (request_of env services leg t)
  settle_leg env services leg id t (call_partner services leg request)
