-- ===== src/Worker/Callback.antt =====
-- `handlePartnerCallback` of zongo/apps/worker/src/worker-job.processor.ts.
use zongo_v.Prelude.{
  Bool, true, false, ◌&&◌, Option, some, String, any_where, update_where, is_text, if◌then◌else◌,
}
use zongo_v.Domain.Lifecycle.{TransferStatus, no_context, status_eq}
use zongo_v.Db.Rows.{Transaction, business, technical}
use zongo_v.Db.Env.{Env}
use zongo_v.Db.Monad.{
  domain, partner_callback_conflict, Action, pure, throw, gets, modify, when, transaction, ◌>>=◌,
  ◌>>◌,
}
use zongo_v.Ledger.Posting.{append_audit}
use zongo_v.Worker.Ports.{Services}
use zongo_v.Worker.Store.{transaction_of, payout_job}
use zongo_v.Worker.Sessions.{record_lifecycle_success, resolve_waiting_session, is_resolved}
use zongo_v.Worker.Recheck.{assert_transition, with_index}
use zongo_v.Worker.Leg.{provider_index}
use zongo_v.Worker.Retry.{with_status}

-- `closed`
abbrev pub is_closed : TransferStatus → Bool
is_closed = is_resolved

abbrev pub called_back : TransferStatus → String → Option String → Transaction → Transaction
called_back status reference index t = record t {
  status = status;
  partner_reference = some reference;
  partner_reference_blind_index = with_index index t.partner_reference_blind_index;
}

-- The transaction that sets the status: whether the transfer still had the status that was read.
unfoldable pub apply_callback : Env → Services → Transaction → TransferStatus → String → Action Bool
apply_callback env services t status reference = transaction (do
  is_applied ← gets (λ db. any_where (with_status t.id t.status) db.transactions)
  modify λ db. record db {
    transactions =
        update_where (with_status t.id t.status)
          (called_back status reference (provider_index env services reference)) db.transactions;
  }
  when (is_applied && status_eq status TransferStatus.collection_success) (payout_job env t)
  pure is_applied)

-- A callback that changes nothing is recorded.
unfoldable pub ignore_callback : Env → Transaction → String → Action Bool
ignore_callback env t name = do append_audit technical name (some t.id) env.now; pure false

unfoldable pub finish_callback : Env → Transaction → TransferStatus → Action Bool
finish_callback env t status = do
  record_lifecycle_success env t.id status
  resolve_waiting_session env t.id status
  append_audit business "transfer.callback.applied" (some t.id) env.now
  pure true

-- The callback of an open transfer whose status it changes.
unfoldable pub advance : Env → Services → Transaction → TransferStatus → String → Action Bool
advance env services t status reference = do
  assert_transition t.status status no_context
  is_applied ← apply_callback env services t status reference
  elim is_applied [
    | true ↦ finish_callback env t status
    | false ↦ ignore_callback env t "transfer.callback.concurrent-state-change"
  ]

-- The callback that repeats the status.
abbrev pub repeat_callback : Env → Transaction → String → Action Bool
repeat_callback env t reference =
    if is_text t.partner_reference reference
    then ignore_callback env t "transfer.callback.duplicate"
    else throw (domain partner_callback_conflict)

unfoldable pub react : Env → Services → Transaction → TransferStatus → String → Action Bool
react env services t status reference =
    if is_closed t.status
    then ignore_callback env t "transfer.callback.late"
    else (if status_eq t.status status
        then repeat_callback env t reference
        else advance env services t status reference)

-- The result is `applied`.
unfoldable pub handle_partner_callback :
    Env → Services → String → TransferStatus → String → Action Bool
handle_partner_callback env services reference status partner_reference = do
  t ← transaction_of reference
  react env services t status partner_reference
