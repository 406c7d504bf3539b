-- ===== src/Whatsapp/Notices.antt =====
-- Notifications that are asked for again (`createNotificationIntent` of
-- zongo/libs/whatsapp/src/whatsapp.service.ts).
use text.Mathlib.TextPositions.{eq_refl}
use zongo_v.Prelude.{
  ◌≡◌, refl, ap, sym, ◌∙◌, true, Option, none, some, [], ◌∷◌, ◌++◌, find_where,
  find_where-append_none, arith,
}
use zongo_v.Db.Rows.{NotificationIntent, Db}
use zongo_v.Db.Env.{Env}
use zongo_v.Db.Monad.{ok, ◌>>=◌}
use zongo_v.Db.Inversion.{gets-ok, transaction-ok}
use zongo_v.Worker.Retry.{create_job}
use zongo_v.Whatsapp.Intents.{
  NotificationIntentInput, IntentResult, intent_by_key, new_intent, answer_intent, request_notice,
  create_notification_intent,
}

created-rows :
    (env : Env) (input : NotificationIntentInput) (o : Option NotificationIntent) (db : Db)
    → {r : IntentResult} {db' : Db} → find_where (intent_by_key input.dedup_key) db.intents ≡ o
    → answer_intent env input o db ≡ (ok r, db')
    → find_where (intent_by_key input.dedup_key) db'.intents ≡ some r.intent
unfolding create_job ◌>>=◌
created-rows env input (some i) db {r} {db'} found h =
    let (same, rows) : (r.intent ≡ i) × (db'.intents ≡ db.intents) = (ground arith, ground arith) in
    ap (find_where (intent_by_key input.dedup_key)) rows ∙ found ∙ ap some (sym same)
created-rows env input none db {r} {db'} free h =
    let (same, rows) : (r.intent ≡ new_intent env input)
        × (db'.intents ≡ db.intents ++ new_intent env input ∷ []) =
      (ground arith, ground arith) in
    ap (find_where (intent_by_key input.dedup_key)) rows
    ∙ find_where-append_none (intent_by_key input.dedup_key) db.intents (new_intent env input ∷ [])
        free
    ∙ rw (eq_refl input.dedup_key) (ap some (sym same))

requested-rows :
    (env : Env) (input : NotificationIntentInput) (db : Db) {r : IntentResult} {db' : Db}
    → request_notice env input db ≡ (ok r, db')
    → find_where (intent_by_key input.dedup_key) db'.intents ≡ some r.intent
unfolding request_notice
requested-rows env input db h =
    created-rows env input (find_where (intent_by_key input.dedup_key) db.intents) db refl
      (gets-ok _ _ db h)

stored_answer :
    (env : Env) (input : NotificationIntentInput) (db : Db) {i : NotificationIntent}
    → find_where (intent_by_key input.dedup_key) db.intents ≡ some i
    → create_notification_intent env input db ≡ (ok (record { duplicate = true; intent = i }), db)
unfolding create_notification_intent request_notice ◌>>=◌
stored_answer env input db found = rw found refl

create-stored :
    (env : Env) (input : NotificationIntentInput) (db : Db) {r : IntentResult} {db' : Db}
    → create_notification_intent env input db ≡ (ok r, db')
    → find_where (intent_by_key input.dedup_key) db'.intents ≡ some r.intent
unfolding create_notification_intent
create-stored env input db h =
    requested-rows env input db (transaction-ok (request_notice env input) db h)

-- A notification that is asked for again under its key is answered with the intent that was stored
-- the first time, and nothing is written: it is neither changed nor queued twice.
pub create_notification_intent-again :
    (env later : Env) (first again : NotificationIntentInput) (db : Db)
    → {r : IntentResult} {db' : Db} → create_notification_intent env first db ≡ (ok r, db')
    → again.dedup_key ≡ first.dedup_key
    → create_notification_intent later again db'
      ≡ (ok (record { duplicate = true; intent = r.intent }), db')
create_notification_intent-again env later first again db {r} {db'} h same =
    stored_answer later again db'
      (ap (λ k. find_where (intent_by_key k) db'.intents) same ∙ create-stored env first db h)
