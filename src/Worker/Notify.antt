-- ===== src/Worker/Notify.antt =====
-- `processNotification` of zongo/apps/worker/src/worker-job.processor.ts.
use zongo_v.Prelude.{
  ℕ, zero, suc, ◌+◌, ◌*◌, Bool, not, Option, none, some, String, find_where, any_where,
  update_where, str_eq, leb, if◌then◌else◌,
}
use zongo_v.Db.Rows.{NotificationIntent, IntentStatus, Payload}
use zongo_v.Db.Env.{Env}
use zongo_v.Db.Monad.{
  Thrown, plain, not_found, Action, ⊤, pure, throw, gets, or_throw, modify, throw_if, transaction,
  try_catch, ◌>>=◌, ◌>>◌,
}
use zongo_v.Worker.Ports.{Services}
use zongo_v.Worker.Store.{update_job, succeed_job, failed_job}
use zongo_v.Worker.Request.{kept}

abbrev pub intent_with : String → NotificationIntent → Bool
intent_with id i = str_eq i.id id

-- `notificationIntent.update({ where: { id } })`
unfoldable pub update_intent : String → (NotificationIntent → NotificationIntent) → Action ⊤
update_intent id f = do
  missing ← gets (λ db. not (any_where (intent_with id) db.intents))
  throw_if missing not_found
  modify (λ db. record db { intents = update_where (intent_with id) f db.intents })

abbrev pub intent_id_of : Payload → Option String
intent_id_of (Payload.intent id) = some id
intent_id_of (Payload.reference r) = none
intent_id_of (Payload.reason r) = none
intent_id_of (Payload.callback r s) = none
intent_id_of (Payload.sweep r bucket) = none
intent_id_of (Payload.manual transaction_id corrected) = none
intent_id_of Payload.manual_flag = none
intent_id_of (Payload.requested_by id) = none

abbrev pub min : ℕ → ℕ → ℕ
min a b = if leb a b then a else b

-- `2 ** n`
abbrev pub power_of_two : ℕ → ℕ
power_of_two zero = 1
power_of_two (suc n) = 2 * power_of_two n

-- `Math.min(3_600_000, 1_000 * 2 ** Math.min(attempts, 10))`
unfoldable pub delay_ms : ℕ → ℕ
delay_ms attempts = min 3600000 (1000 * power_of_two (min attempts 10))

abbrev pub sent : Env → NotificationIntent → NotificationIntent
sent env i = record i { status = IntentStatus.sent; sent_at = some env.now }

abbrev pub send_failed : Env → ℕ → String → NotificationIntent → NotificationIntent
send_failed env attempts message i = record i {
  status = IntentStatus.failed;
  attempts = attempts;
  last_error = some message;
  next_attempt_at = some (env.now + delay_ms attempts);
}

abbrev pub thrown_by : Option Thrown → Action ⊤
thrown_by none = pure tt
thrown_by (some e) = throw e

-- The body of the `try`.
unfoldable pub deliver :
    Env → (String → String → Option Thrown) → String → NotificationIntent → String → Action ⊤
deliver env send job_id intent recipient = do
  thrown_by (send recipient intent.template)
  transaction (do update_intent intent.id (sent env); update_job job_id (succeed_job env))

-- The `catch`: the attempt is counted, the next one is put off, and the error goes on.
unfoldable pub delivery_failed : Env → String → NotificationIntent → Thrown → Action ⊤
delivery_failed env job_id intent e = do
  transaction (do
    update_intent intent.id (send_failed env (intent.attempts + 1) (env.message e))
    update_job job_id (failed_job (env.message e)))
  throw e

abbrev dependencies_missing : Thrown
dependencies_missing = plain "WhatsApp notification dependencies are not configured"

unfoldable pub process_notification : Env → Services → String → Payload → Action ⊤
process_notification env services job_id payload = do
  throw_if (not services.protected) dependencies_missing
  send ← or_throw services.send dependencies_missing
  intent_id ← or_throw (intent_id_of payload) (plain "Notification intent id is required")
  found ← gets (λ db. find_where (intent_with intent_id) db.intents)
  intent ← or_throw found not_found
  ciphertext ←
      or_throw (kept intent.recipient_phone_ciphertext)
        (plain "Notification recipient is unavailable")
  recipient ← or_throw (env.decrypt ciphertext "sender-phone") (plain "Decryption failed")
  try_catch (deliver env send job_id intent recipient) (delivery_failed env job_id intent)
