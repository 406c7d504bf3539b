-- ===== src/Whatsapp/Intents.antt =====
-- `createNotificationIntent` of zongo/libs/whatsapp/src/whatsapp.service.ts. The payload of an intent
-- is not kept.
use zongo_v.Prelude.{
  Bool, true, false, Option, none, some, [], ◌∷◌, ◌++◌, String, find_where, str_eq, get_or,
  template,
}
use zongo_v.Db.Rows.{NotificationIntent, IntentStatus, WorkerJob, JobType, Payload, Db}
use zongo_v.Db.Env.{Env}
use zongo_v.Db.Monad.{Action, pure, gets, modify, transaction, ◌>>=◌, ◌>>◌}
use zongo_v.Worker.Store.{new_job}
use zongo_v.Worker.Retry.{create_job}

pub record NotificationIntentInput : Type 0 where
  pub dedup_key : String
  pub transaction_id : Option String
  pub recipient_phone_number : String
  pub template : String

pub record IntentResult : Type 0 where
  pub duplicate : Bool
  pub intent : NotificationIntent

abbrev pub intent_by_key : String → NotificationIntent → Bool
intent_by_key key i = str_eq i.dedup_key key

abbrev pub new_intent : Env → NotificationIntentInput → NotificationIntent
new_intent env input = record {
  id = env.new_id input.dedup_key;
  dedup_key = input.dedup_key;
  transaction_id = input.transaction_id;
  recipient_phone_ciphertext = some (env.encrypt input.recipient_phone_number "sender-phone");
  template = input.template;
  status = IntentStatus.pending;
  attempts = 0;
  next_attempt_at = none;
  last_error = none;
  sent_at = none;
}

abbrev pub notification_key : String → String
notification_key id = template ("notification:" ∷ id ∷ [])

abbrev pub notification_job : Env → NotificationIntent → WorkerJob
notification_job env i =
    new_job env (notification_key i.id) JobType.notification (get_or i.transaction_id i.id)
      i.transaction_id (Payload.intent i.id)

abbrev pub add_intent : NotificationIntent → Db → Db
add_intent i db = record db { intents = db.intents ++ i ∷ [] }

abbrev pub answer_intent :
    Env → NotificationIntentInput → Option NotificationIntent → Action IntentResult
answer_intent env input (some i) = pure (record { duplicate = true; intent = i })
answer_intent env input none = do
  modify (add_intent (new_intent env input))
  create_job (notification_job env (new_intent env input))
  pure (record { duplicate = false; intent = new_intent env input })

unfoldable pub request_notice : Env → NotificationIntentInput → Action IntentResult
request_notice env input = do
  existing ← gets (λ db. find_where (intent_by_key input.dedup_key) db.intents)
  answer_intent env input existing

unfoldable pub create_notification_intent : Env → NotificationIntentInput → Action IntentResult
create_notification_intent env input = transaction (request_notice env input)
