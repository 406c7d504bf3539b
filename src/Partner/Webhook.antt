-- ===== src/Partner/Webhook.antt =====
-- `apply` of zongo/libs/partner/src/lib/pretium-webhook.service.ts. Its private
-- `resolveTransferOutcome` is never called.
use zongo_v.Prelude.{
  Bool, false, ◌&&◌, ◌||◌, Option, none, some, [], ◌∷◌, String, find_where, is_text, truthy,
  template, if◌then◌else◌,
}
use zongo_v.Domain.Lifecycle.{TransferStatus, no_context, status_eq, can_transition}
use zongo_v.Db.Rows.{Transaction, WorkerJob, JobType, Payload, technical}
use zongo_v.Db.Env.{Env}
use zongo_v.Db.Monad.{domain, partner_callback_unknown, Action, pure, gets, or_throw, ◌>>=◌, ◌>>◌}
use zongo_v.Ledger.Posting.{append_audit}
use zongo_v.Worker.Store.{new_job, upsert_job}
use zongo_v.Worker.Recheck.{status_name}
use zongo_v.Partner.Status.{map_status}

pub record WebhookInput : Type 0 where
  pub partner_reference : String
  pub provider_status : String

-- What `apply` returns.
pub record WebhookResult : Type 0 where
  pub applied : Bool
  pub transaction_reference : String

abbrev pub index_matches : Option String → Option String → Bool
index_matches none column = false
index_matches (some index) column = truthy (some index) && is_text column index

-- `where: { OR: [{ partnerReference }, { partnerReferenceBlindIndex }] }`
abbrev pub refers_to : String → Option String → Transaction → Bool
refers_to reference index t =
    is_text t.partner_reference reference || index_matches index t.partner_reference_blind_index

abbrev pub webhook_index : Env → Bool → String → Option String
webhook_index env protected reference =
    if protected then some (env.blind_index reference "provider-reference") else none

abbrev pub is_closed : TransferStatus → Bool
is_closed s =
    status_eq s TransferStatus.collection_failed
    || status_eq s TransferStatus.payout_failed
    || status_eq s TransferStatus.payout_success

abbrev pub not_applied : Transaction → WebhookResult
not_applied t = record { applied = false; transaction_reference = t.reference }

-- A callback that changes nothing is recorded under a name.
unfoldable pub note_callback : Env → Transaction → String → Action WebhookResult
note_callback env t name = do append_audit technical name (some t.id) env.now; pure (not_applied t)

abbrev pub callback_key : String → TransferStatus → String
callback_key id status = template ("callback-status-recheck:" ∷ id ∷ ":" ∷ status_name status ∷ [])

abbrev pub callback_job : Env → Transaction → TransferStatus → WorkerJob
callback_job env t status =
    new_job env (callback_key t.id status) JobType.status_recheck t.reference (some t.id)
      (Payload.callback "PROVIDER_CALLBACK_REQUIRES_STATUS_CONFIRMATION" status)

-- A callback that could be right asks for a status lookup.
unfoldable pub ask_for_recheck : Env → Transaction → TransferStatus → Action WebhookResult
ask_for_recheck env t status = do
  upsert_job (callback_job env t status)
  append_audit technical "transfer.callback.received" (some t.id) env.now
  pure (not_applied t)

unfoldable pub receive : Env → Transaction → TransferStatus → Action WebhookResult
receive env t status =
    if is_closed t.status
    then note_callback env t (
        if status_eq t.status status
        then "transfer.callback.duplicate"
        else "transfer.callback.late")
    else (if status_eq t.status status
        then note_callback env t "transfer.callback.duplicate"
        else (if can_transition t.status status no_context
            then ask_for_recheck env t status
            else note_callback env t "transfer.callback.out-of-order"))

unfoldable pub apply_webhook : Env → Bool → WebhookInput → Action WebhookResult
apply_webhook env protected input = do
  found ← gets λ db.
      find_where
        (refers_to input.partner_reference (webhook_index env protected input.partner_reference))
        db.transactions
  t ← or_throw found (domain partner_callback_unknown)
  receive env t (map_status env input.provider_status t.status)
