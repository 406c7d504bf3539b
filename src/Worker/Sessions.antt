-- ===== src/Worker/Sessions.antt =====
-- `resolveWaitingSession` and `recordLifecycleSuccess` of
-- zongo/apps/worker/src/worker-job.processor.ts.
use zongo_v.Prelude.{
  Bool, ◌||◌, Option, none, some, List, [], ◌∷◌, ◌++◌, String, find_where, update_where, any_where,
  str_eq, is_text, truthy, template, if◌then◌else◌,
}
use zongo_v.Domain.Lifecycle.{TransferStatus, status_eq}
use zongo_v.Db.Rows.{
  Transaction, Session, SessionStatus, NotificationIntent, IntentStatus, JobType, Payload,
}
use zongo_v.Db.Env.{Env}
use zongo_v.Db.Monad.{Action, ⊤, pure, gets, modify, when, transaction, ◌>>=◌, ◌>>◌}
use zongo_v.Ledger.Posting.{LifecycleEvent, append_lifecycle_entries, persist_reconciliation}
use zongo_v.Worker.Store.{transaction_with, new_job, upsert_job}

-- The statuses that end the conversation.
abbrev pub is_resolved : TransferStatus → Bool
is_resolved s =
    status_eq s TransferStatus.collection_failed
    || status_eq s TransferStatus.payout_success
    || status_eq s TransferStatus.payout_failed

abbrev pub owned_by : String → Session → Bool
owned_by transfer_id s = is_text s.transfer_id transfer_id

abbrev pub intent_by_key : String → NotificationIntent → Bool
intent_by_key key i = str_eq i.dedup_key key

abbrev pub resolved_key : String → String
resolved_key id = template ("transfer:" ∷ id ∷ ":resolved" ∷ [])

abbrev pub close_session : Session → Session
close_session s = record s { status = SessionStatus.closed; active_chat_key = none }

abbrev pub new_intent : Env → Transaction → Option String → NotificationIntent
new_intent env t recipient = record {
  id = env.new_id (resolved_key t.id);
  dedup_key = resolved_key t.id;
  transaction_id = some t.id;
  recipient_phone_ciphertext = recipient;
  template = "transfer.resolved";
  status = IntentStatus.pending;
  attempts = 0;
  next_attempt_at = none;
  last_error = none;
  sent_at = none;
}

-- `notificationIntent.upsert({ where: { dedupKey }, create, update: {} })`: the row that is there.
abbrev pub stored_intent : NotificationIntent → List NotificationIntent → NotificationIntent
stored_intent i rows = elim (find_where (intent_by_key i.dedup_key) rows) [ none ↦ i | some j ↦ j ]

abbrev pub add_intent : NotificationIntent → List NotificationIntent → List NotificationIntent
add_intent i rows = if any_where (intent_by_key i.dedup_key) rows then rows else rows ++ i ∷ []

-- The transaction that closes the session and queues the notification.
unfoldable pub close_and_notify : Env → Transaction → Session → Action ⊤
close_and_notify env t session = transaction (do
  modify λ db. record db {
    sessions = update_where (λ s. str_eq s.id session.id) close_session db.sessions;
  }
  let wanted = new_intent env t session.sender_phone_ciphertext
  intent ← gets (λ db. stored_intent wanted db.intents)
  modify (λ db. record db { intents = add_intent wanted db.intents })
  upsert_job (
      new_job env (template ("notification:" ∷ intent.id ∷ [])) JobType.notification t.reference
        (some t.id) (Payload.intent intent.id)))

abbrev pub resolve_session : Env → String → Option Session → Action ⊤
resolve_session env transfer_id none = pure tt
resolve_session env transfer_id (some session) =
    when (truthy session.sender_phone_ciphertext)
      (do t ← transaction_with transfer_id; close_and_notify env t session)

unfoldable pub resolve_waiting_session : Env → String → TransferStatus → Action ⊤
resolve_waiting_session env transfer_id status = when (is_resolved status) (do
  session ← gets (λ db. find_where (owned_by transfer_id) db.sessions)
  resolve_session env transfer_id session)

-- The ledger event that a status records.
abbrev pub event_of : TransferStatus → Option LifecycleEvent
event_of TransferStatus.collection_success = some LifecycleEvent.collection
event_of TransferStatus.payout_success = some LifecycleEvent.payout
event_of TransferStatus.initiated = none
event_of TransferStatus.pending_collection = none
event_of TransferStatus.collection_failed = none
event_of TransferStatus.pending_payout = none
event_of TransferStatus.payout_failed = none

abbrev pub record_event : Env → String → Option LifecycleEvent → Action ⊤
record_event env id none = pure tt
record_event env id (some event) = do
  append_lifecycle_entries env.now id event
  _ ← persist_reconciliation id
  pure tt

unfoldable pub record_lifecycle_success : Env → String → TransferStatus → Action ⊤
record_lifecycle_success env id status = record_event env id (event_of status)
