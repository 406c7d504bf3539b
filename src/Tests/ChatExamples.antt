-- ===== src/Tests/ChatExamples.antt =====
-- Conversations, at concrete inputs.
use mathlib.Core.Option.{some-injective}
use zongo_v.Prelude.{
  ◌≡◌, refl, subst, Bool, true, false, Bool-cases, inl, inr, String, str_eq, none, some, [], ◌∷◌,
  arith, find_where, any_where, if◌then◌else◌,
}
use zongo_v.Db.Rows.{Session, Db}
use zongo_v.Whatsapp.Message.{TextReader}
use zongo_v.Whatsapp.Inbound.{InboundInput, InboundResult, blocked, is_session, accept_inbound}
use zongo_v.Whatsapp.Expiry.{expire_session}
use zongo_v.Whatsapp.Keys.{OneSession, OneSession-kept}
use zongo_v.Whatsapp.Conversations.{KeysMatch, busy-Stays}
use zongo_v.Tests.Data.{test_env, test_db, open_session}

-- A reader of one-word messages.
abbrev reader : TextReader
reader = record { normalize = λ text. text; has_word = λ words text. any_where (str_eq text) words }

abbrev stop_message : InboundInput
stop_message = record {
  external_event_id = "m1";
  chat_id = "c1";
  sender_phone_number = "+1555";
  consent_given = false;
  message_text = some "stop";
}

one_session : OneSession test_db.sessions
one_session key = elim (Bool-cases (str_eq "chat:c1" key)) [
  | inl e ↦ rw e (omega arith)
  | inr e ↦ rw e (omega arith)
]

OneSession-kept_example :
    ((text : TextReader) (input : InboundInput)
      → OneSession (accept_inbound test_env text input test_db).1.sessions)
    × ((id : String) → OneSession (expire_session test_env id test_db).1.sessions)
OneSession-kept_example = OneSession-kept test_env test_db one_session

abbrev busy_session : Session
busy_session = record open_session { transfer_id = some "t1" }

abbrev busy_db : Db
busy_db = record test_db { sessions = busy_session ∷ [] }

busy-match :
    (b : Bool) (s : Session)
    → (if b then some busy_session else none) ≡ some s
    → find_where (is_session s.id) busy_db.sessions ≡ some s
busy-match true s e =
    subst (λ x. find_where (is_session x.id) busy_db.sessions ≡ some x) (some-injective _ _ e) refl
busy-match false s e = cc

busy_db-KeysMatch : KeysMatch busy_db.sessions
busy_db-KeysMatch key s e = busy-match (str_eq "chat:c1" key) s e

busy-Stays_example :
    find_where (is_session "s1") (accept_inbound test_env reader stop_message busy_db).1.sessions
    ≡ some busy_session
busy-Stays_example =
    busy-Stays "s1" busy_session refl test_env reader stop_message busy_db busy_db-KeysMatch refl

abbrev stopped : InboundResult
stopped = blocked "SESSION_CANCELLED" (some "s1") none

abbrev stopped_chat : Db
stopped_chat = (accept_inbound test_env reader stop_message test_db).1
