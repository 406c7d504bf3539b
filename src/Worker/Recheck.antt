-- ===== src/Worker/Recheck.antt =====
-- The status recheck of `process` in zongo/apps/worker/src/worker-job.processor.ts.
use zongo_v.Prelude.{
  ◌&&◌, not, Option, none, some, get_or, [], ◌∷◌, String, truthy, template, if◌then◌else◌,
}
use zongo_v.Domain.Lifecycle.{
  TransferStatus, TransitionContext, no_context, status_eq, can_transition,
}
use zongo_v.Db.Rows.{Transaction, business}
use zongo_v.Db.Env.{Env}
use zongo_v.Db.Monad.{
  Action, ⊤, pure, throw, domain, invalid_transaction_transition, throw_if, when, transaction, ◌>>◌,
}
use zongo_v.Ledger.Posting.{append_audit}
use zongo_v.Worker.Ports.{WorkerJobResult, PartnerError, PartnerStatusResult, Phase, Services}
use zongo_v.Worker.Store.{update_transaction, update_job, succeed_job, failed_job, payout_job}
use zongo_v.Worker.Sessions.{record_lifecycle_success, resolve_waiting_session}

-- `this.lifecycle.assertTransition(from, to, context)`
unfoldable pub assert_transition : TransferStatus → TransferStatus → TransitionContext → Action ⊤
assert_transition from to context =
    throw_if (not (can_transition from to context)) (domain invalid_transaction_transition)

abbrev pub status_name : TransferStatus → String
status_name TransferStatus.initiated = "INITIATED"
status_name TransferStatus.pending_collection = "PENDING_COLLECTION"
status_name TransferStatus.collection_success = "COLLECTION_SUCCESS"
status_name TransferStatus.collection_failed = "COLLECTION_FAILED"
status_name TransferStatus.pending_payout = "PENDING_PAYOUT"
status_name TransferStatus.payout_success = "PAYOUT_SUCCESS"
status_name TransferStatus.payout_failed = "PAYOUT_FAILED"

-- `{ partnerReferenceBlindIndex }` where it was computed and is not empty, else the column's value.
abbrev pub with_index : Option String → Option String → Option String
with_index new old = if truthy new then new else old

abbrev pub phase_of : Transaction → Phase
phase_of t =
    if status_eq t.status TransferStatus.pending_payout then Phase.payout else Phase.collection

-- The blind index of a partner reference that is not empty.
abbrev pub index_of : Env → Services → Option String → Option String
index_of env services none = none
index_of env services (some reference) =
    if services.protected && truthy (some reference)
    then some (env.blind_index reference "provider-reference")
    else none

abbrev pub recheck_failed : Env → String → Transaction → Transaction
recheck_failed env code t = record t {
  last_status_recheck_at = some env.now;
  last_status_recheck_result = some (template ("FAILED:" ∷ code ∷ []));
}

-- An undefined partner reference leaves the column.
abbrev pub rechecked : Env → Services → TransferStatus → Option String → Transaction → Transaction
rechecked env services status reference t = record t {
  status = status;
  partner_reference = elim reference [ none ↦ t.partner_reference | some r ↦ some r ];
  partner_reference_blind_index =
      with_index (index_of env services reference) t.partner_reference_blind_index;
  last_status_recheck_at = some env.now;
  last_status_recheck_result = some (status_name status);
}

unfoldable pub refuse_recheck : Env → String → Transaction → PartnerError → Action WorkerJobResult
refuse_recheck env id t error = do
  transaction (do
    update_transaction t.id (recheck_failed env error.code)
    update_job id (failed_job error.message))
  append_audit business "admin.transfer.status-recheck.failed" (some t.id) env.now
  pure WorkerJobResult.failed

unfoldable pub accept_recheck :
    Env → Services → String → Transaction → TransferStatus → Option String → Action WorkerJobResult
accept_recheck env services id t status reference = do
  assert_transition t.status status no_context
  transaction (do
    update_transaction t.id (rechecked env services status reference)
    update_job id (succeed_job env)
    when (status_eq status TransferStatus.collection_success) (payout_job env t))
  record_lifecycle_success env t.id status
  resolve_waiting_session env t.id status
  append_audit business "admin.transfer.status-recheck.completed" (some t.id) env.now
  pure WorkerJobResult.succeeded

abbrev pub settle_recheck :
    Env → Services → String → Transaction → PartnerStatusResult → Action WorkerJobResult
settle_recheck env services id t (PartnerStatusResult.known status reference) =
    accept_recheck env services id t status reference
settle_recheck env services id t (PartnerStatusResult.unknown error) = refuse_recheck env id t error
settle_recheck env services id t (PartnerStatusResult.threw e) = throw e

unfoldable pub recheck_status : Env → Services → String → Transaction → Action WorkerJobResult
recheck_status env services id t =
    settle_recheck env services id t
      (services.status (get_or t.partner_reference t.reference) (phase_of t))
