-- ===== src/Whatsapp/Inbound.antt =====
-- `acceptInbound` of zongo/libs/whatsapp/src/whatsapp.service.ts.
use zongo_v.Prelude.{
  ℕ, ◌+◌, Bool, true, false, not, ◌&&◌, ◌||◌, Option, none, some, [], ◌∷◌, ◌++◌, String, find_where,
  update_where, str_eq, truthy, template, ◌==◌, if◌then◌else◌,
}
use zongo_v.Db.Rows.{
  Transaction, WorkerJob, JobType, Payload, Session, SessionStatus, session_status_eq, ChatIntent,
  Locale, InboundEvent, technical, Db,
}
use zongo_v.Db.Env.{Env}
use zongo_v.Db.Monad.{Action, ⊤, pure, gets, modify, transaction, ◌>>=◌, ◌>>◌}
use zongo_v.Ledger.Posting.{append_audit}
use zongo_v.Transfer.Checks.{chat_key, owns_key}
use zongo_v.Worker.Store.{new_job, upsert_job, transaction_with}
use zongo_v.Whatsapp.Message.{TextReader, ParsedMessage, parse_message}

pub record InboundInput : Type 0 where
  pub external_event_id : String
  pub chat_id : String
  pub sender_phone_number : String
  pub consent_given : Bool
  pub message_text : Option String

pub record InboundResult : Type 0 where
  pub duplicate : Bool
  pub accepted : Bool
  pub reason : Option String
  pub session_id : Option String
  pub transfer_id : Option String

abbrev pub intent_tag : ChatIntent → ℕ
intent_tag ChatIntent.start_transfer = 0
intent_tag ChatIntent.consent = 1
intent_tag ChatIntent.cancel = 2
intent_tag ChatIntent.status = 3
intent_tag ChatIntent.help = 4
intent_tag ChatIntent.unknown = 5

abbrev pub intent_eq : ChatIntent → ChatIntent → Bool
intent_eq a b = intent_tag a == intent_tag b

abbrev pub is_event : String → InboundEvent → Bool
is_event id e = str_eq e.external_event_id id

abbrev pub new_event : Env → InboundInput → ParsedMessage → Bool → InboundEvent
new_event env input parsed consent = record {
  external_event_id = input.external_event_id;
  chat_id = input.chat_id;
  sender_phone_ciphertext = env.encrypt input.sender_phone_number "sender-phone";
  sender_phone_blind_index = env.blind_index input.sender_phone_number "sender-phone";
  intent = parsed.intent;
  locale = parsed.locale;
  consent_given = consent;
}

-- The answer to a message that opens no session.
abbrev pub blocked : String → Option String → Option String → InboundResult
blocked reason session_id transfer_id = record {
  duplicate = false;
  accepted = false;
  reason = some reason;
  session_id = session_id;
  transfer_id = transfer_id;
}

abbrev pub duplicate_result : InboundResult
duplicate_result = record {
  duplicate = true;
  accepted = false;
  reason = none;
  session_id = none;
  transfer_id = none;
}

abbrev pub opened : String → InboundResult
opened id = record {
  duplicate = false;
  accepted = true;
  reason = none;
  session_id = some id;
  transfer_id = none;
}

abbrev pub is_session : String → Session → Bool
is_session id s = str_eq s.id id

unfoldable pub update_session : String → (Session → Session) → Action ⊤
update_session id f =
    modify (λ db. record db { sessions = update_where (is_session id) f db.sessions })

abbrev pub cancelled : Session → Session
cancelled s = record s { status = SessionStatus.closed; active_chat_key = none }

abbrev pub consented : ℕ → Locale → Session → Session
consented now locale s = record s { consent_given_at = some now; locale = locale }

abbrev pub query_key : String → String
query_key reference = template ("status-query:" ∷ reference ∷ [])

abbrev pub query_job : Env → Transaction → WorkerJob
query_job env t =
    new_job env (query_key t.reference) JobType.status_recheck t.reference (some t.id)
      (Payload.reason "CUSTOMER_STATUS_QUERY")

-- A message to a session that waits for its transfer: whatever it says, it asks for the status.
unfoldable pub answer_waiting : Env → Session → String → Action InboundResult
answer_waiting env s transfer_id = do
  t ← transaction_with transfer_id
  upsert_job (query_job env t)
  pure (blocked "WAITING_STATUS_ONLY" (some s.id) (some transfer_id))

unfoldable pub answer_cancel : Session → Action InboundResult
answer_cancel s =
    if truthy s.transfer_id
    then pure (blocked "CANCEL_NOT_AVAILABLE_AFTER_ACCEPTANCE" (some s.id) s.transfer_id)
    else (do update_session s.id cancelled; pure (blocked "SESSION_CANCELLED" (some s.id) none))

unfoldable pub answer_consent : Env → Locale → Session → Action InboundResult
answer_consent env locale s = do
  update_session s.id (consented env.now locale)
  pure (blocked "CONSENT_CAPTURED" (some s.id) none)

-- A message to a session of the chat that does not wait.
unfoldable pub answer_open : Env → ParsedMessage → Session → Action InboundResult
answer_open env parsed s =
    if intent_eq parsed.intent ChatIntent.cancel
    then answer_cancel s
    else (if intent_eq parsed.intent ChatIntent.consent && not (truthy s.transfer_id)
        then answer_consent env parsed.locale s
        else pure (blocked "ACTIVE_TRANSFER_SESSION" (some s.id) none))

abbrev pub text_of : Option String → String
text_of none = ""
text_of (some text) = text

unfoldable pub answer_active : Env → ParsedMessage → Session → Action InboundResult
answer_active env parsed s =
    if session_status_eq s.status SessionStatus.waiting && truthy s.transfer_id
    then answer_waiting env s (text_of s.transfer_id)
    else answer_open env parsed s

abbrev pub session_ms : ℕ
session_ms = 900000

abbrev pub consent_time : Env → Bool → Option ℕ
consent_time env true = some env.now
consent_time env false = none

abbrev pub new_session : Env → InboundInput → ParsedMessage → Bool → Session
new_session env input parsed consent = record {
  id = env.new_id "session";
  chat_id = input.chat_id;
  sender_phone_number = none;
  sender_phone_ciphertext = some (env.encrypt input.sender_phone_number "sender-phone");
  sender_phone_blind_index = some (env.blind_index input.sender_phone_number "sender-phone");
  status = SessionStatus.active;
  locale = parsed.locale;
  consent_given_at = consent_time env consent;
  active_chat_key = some (chat_key input.chat_id);
  transfer_id = none;
  expires_at = some (env.now + session_ms);
}

-- A message in a chat without an active session.
unfoldable pub answer_new : Env → InboundInput → ParsedMessage → Bool → Action InboundResult
answer_new env input parsed consent =
    if intent_eq parsed.intent ChatIntent.cancel || intent_eq parsed.intent ChatIntent.status
    then pure (blocked "NO_ACTIVE_SESSION" none none)
    else (do
      modify
          (λ db. record db { sessions = db.sessions ++ new_session env input parsed consent ∷ [] })
      pure (opened (new_session env input parsed consent).id))

abbrev pub answer :
    Env → InboundInput → ParsedMessage → Bool → Option Session → Action InboundResult
answer env input parsed consent none = answer_new env input parsed consent
answer env input parsed consent (some s) = answer_active env parsed s

abbrev pub record_event : InboundEvent → Db → Db
record_event e db = record db { inbound_events = db.inbound_events ++ e ∷ [] }

abbrev pub receive_once :
    Env → InboundInput → ParsedMessage → Bool → Option InboundEvent → Action InboundResult
receive_once env input parsed consent (some e) = pure duplicate_result
receive_once env input parsed consent none = do
  modify (record_event (new_event env input parsed consent))
  active ← gets (λ db. find_where (owns_key (chat_key input.chat_id)) db.sessions)
  answer env input parsed consent active

-- The body of the transaction.
unfoldable pub receive_message : Env → InboundInput → ParsedMessage → Bool → Action InboundResult
receive_message env input parsed consent = do
  existing ← gets (λ db. find_where (is_event input.external_event_id) db.inbound_events)
  receive_once env input parsed consent existing

abbrev pub result_name : InboundResult → String
result_name r =
    if r.duplicate
    then "whatsapp.inbound.duplicate"
    else (if r.accepted then "whatsapp.session.accepted" else "whatsapp.session.blocked")

unfoldable pub note_result : Env → InboundResult → Action InboundResult
note_result env r = do append_audit technical (result_name r) none env.now; pure r

unfoldable pub accept_inbound : Env → TextReader → InboundInput → Action InboundResult
accept_inbound env reader input = do
  let parsed : ParsedMessage = parse_message reader input.message_text
  r ← transaction (receive_message env input parsed (input.consent_given || parsed.consent_given))
  note_result env r
