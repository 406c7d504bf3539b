-- ===== src/Whatsapp/Keys.antt =====
-- One active session for each chat (zongo/libs/whatsapp/src/whatsapp.service.ts).
use text.Mathlib.TextEquality.{eq_iff}
use zongo_v.Prelude.{
  ◌≤◌, ◌≡◌, refl, ap, sym, ◌∙◌, inl, inr, Bool, true, not, ◌&&◌, ◌||◌, Option, none, some, List, [],
  ◌∷◌, ◌++◌, String, find_where, update_where, count_where, str_eq, truthy, count_where-append,
  Bool-cases, arith,
}
use zongo_v.Db.Rows.{
  Session, SessionStatus, session_status_eq, ChatIntent, Transaction, InboundEvent, Db,
}
use zongo_v.Db.Env.{Env}
use zongo_v.Db.Monad.{Result, ok, err, commit, continue, ◌>>=◌}
use zongo_v.Ledger.Posting.{by_id}
use zongo_v.Transfer.Checks.{chat_key, owns_key}
use zongo_v.Worker.Store.{upsert_job, transaction_with}
use zongo_v.Whatsapp.Message.{TextReader, ParsedMessage, parse_message}
use zongo_v.Whatsapp.Inbound.{
  InboundInput, InboundResult, note_result, is_session, is_event, cancelled, consented,
  update_session, intent_eq, text_of, answer_waiting, answer_cancel, answer_consent, answer_open,
  answer_active, answer_new, answer, new_session, receive_once, receive_message, accept_inbound,
}
use zongo_v.Whatsapp.Expiry.{
  waiting, is_alive, await_transfer, session_with, close_or_wait, end_session, expire_session,
}

-- A chat has at most one active session: its key, a unique column, is held once.
abbrev pub OneSession : List Session → Type 0
OneSession ss = (key : String) → count_where (owns_key key) ss ≤ 1

count-update :
    (key id : String) (f : Session → Session) (ss : List Session)
    → ((s : Session) → owns_key key (f s) ≡ true → owns_key key s ≡ true)
    → count_where (owns_key key) (update_where (is_session id) f ss) ≤ count_where (owns_key key) ss
count-update key id f [] h = omega arith
count-update key id f (s ∷ ss) h = ground (arith, h s, count-update key id f ss h)

cancelled-key :
    (key : String) (s : Session) → owns_key key (cancelled s) ≡ true → owns_key key s ≡ true
cancelled-key key s h = absurd (ground (arith, h))

same-OneSession : {ss ss' : List Session} → ss' ≡ ss → OneSession ss → OneSession ss'
same-OneSession e h key = rw e (h key)

update-OneSession :
    (id : String) (f : Session → Session) (db : Db)
    → ((key : String) (s : Session) → owns_key key (f s) ≡ true → owns_key key s ≡ true)
    → OneSession db.sessions
    → OneSession (update_session id f db).1.sessions
unfolding update_session ◌>>=◌
update-OneSession id f db keeps h key =
    omega (arith, h key, count-update key id f db.sessions (keeps key))

pub waiting-sessions :
    (env : Env) (s : Session) (id : String) (db : Db) (o : Option Transaction)
    → find_where (by_id id) db.transactions ≡ o
    → (answer_waiting env s id db).1.sessions ≡ db.sessions
unfolding answer_waiting transaction_with upsert_job ◌>>=◌
waiting-sessions env s id db none e = rw e refl
waiting-sessions env s id db (some t) e = rw e refl

cancel-OneSession :
    (s : Session) (db : Db) → OneSession db.sessions → OneSession (answer_cancel s db).1.sessions
unfolding answer_cancel ◌>>=◌ update_session
cancel-OneSession s db h = elim (Bool-cases (truthy s.transfer_id)) [
  | inl e ↦ rw e h
  | inr e ↦ rw e (update-OneSession s.id cancelled db cancelled-key h)
]

open-OneSession :
    (env : Env) (parsed : ParsedMessage) (s : Session) (db : Db)
    → OneSession db.sessions
    → OneSession (answer_open env parsed s db).1.sessions
unfolding answer_open answer_consent ◌>>=◌ update_session
open-OneSession env parsed s db h = elim (Bool-cases (intent_eq parsed.intent ChatIntent.cancel)) [
  | inl e ↦ rw e (cancel-OneSession s db h)
  | inr e ↦
      elim (Bool-cases (intent_eq parsed.intent ChatIntent.consent && not (truthy s.transfer_id))) [
        | inl c ↦
            rw (e, c) (update-OneSession s.id (consented env.now parsed.locale) db (λ key x k. k) h)
        | inr c ↦ rw (e, c) h
      ]
]

active-OneSession :
    (env : Env) (parsed : ParsedMessage) (s : Session) (db : Db)
    → OneSession db.sessions
    → OneSession (answer_active env parsed s db).1.sessions
unfolding answer_active
active-OneSession env parsed s db h =
    elim (Bool-cases (session_status_eq s.status SessionStatus.waiting && truthy s.transfer_id)) [
      | inl e ↦ rw e (same-OneSession (waiting-sessions env s (text_of s.transfer_id) db _ refl) h)
      | inr e ↦ rw e (open-OneSession env parsed s db h)
    ]

count-none :
    (key : String) (ss : List Session)
    → find_where (owns_key key) ss ≡ none
    → count_where (owns_key key) ss ≡ 0
count-none key [] h = refl
count-none key (s ∷ ss) h = ground (arith, count-none key ss)

new-OneSession :
    (env : Env) (input : InboundInput) (parsed : ParsedMessage) (consent : Bool) (db : Db)
    → find_where (owns_key (chat_key input.chat_id)) db.sessions ≡ none
    → OneSession db.sessions
    → OneSession (answer_new env input parsed consent db).1.sessions
unfolding answer_new ◌>>=◌
new-OneSession env input parsed consent db free h =
    elim (Bool-cases
      (intent_eq parsed.intent ChatIntent.cancel || intent_eq parsed.intent ChatIntent.status)) [
        | inl e ↦ rw e h
        | inr e ↦ rw e (λ key. added-count key)
      ]
  where
    added-count :
        (key : String)
        → count_where (owns_key key) (db.sessions ++ new_session env input parsed consent ∷ []) ≤ 1
    added-count key =
        let total =
          count_where-append (owns_key key) db.sessions
            (new_session env input parsed consent ∷ []) in
        elim (Bool-cases (str_eq (chat_key input.chat_id) key)) [
          | inl e ↦
              let none_yet : count_where (owns_key key) db.sessions ≡ 0 =
                ap (λ k. count_where (owns_key k) db.sessions)
                  (sym ((eq_iff (chat_key input.chat_id) key).0 e))
                ∙ count-none (chat_key input.chat_id) db.sessions free in
              rw (total, e, none_yet) (omega arith)
          | inr e ↦ rw (total, e) (omega (arith, h key))
        ]

answer-OneSession :
    (env : Env) (input : InboundInput) (parsed : ParsedMessage) (consent : Bool)
    → (o : Option Session) (db : Db)
    → find_where (owns_key (chat_key input.chat_id)) db.sessions ≡ o
    → OneSession db.sessions
    → OneSession (answer env input parsed consent o db).1.sessions
answer-OneSession env input parsed consent none db e h =
    new-OneSession env input parsed consent db e h
answer-OneSession env input parsed consent (some s) db e h = active-OneSession env parsed s db h

once-OneSession :
    (env : Env) (input : InboundInput) (parsed : ParsedMessage) (consent : Bool)
    → (o : Option InboundEvent) (db : Db) → OneSession db.sessions
    → OneSession (receive_once env input parsed consent o db).1.sessions
unfolding ◌>>=◌
once-OneSession env input parsed consent (some e) db h = h
once-OneSession env input parsed consent none db h =
    answer-OneSession env input parsed consent _ _ refl h

commit-OneSession :
    {A : Type 0} (db : Db) (r : Result A × Db)
    → OneSession db.sessions
    → OneSession r.1.sessions
    → OneSession (commit db r).1.sessions
commit-OneSession db (ok a, db') h k = k
commit-OneSession db (err e, db') h k = h

await-OneSession :
    (env : Env) (s : Session) (db : Db) (o : Option Transaction)
    → find_where (by_id (text_of s.transfer_id)) db.transactions ≡ o
    → OneSession db.sessions
    → OneSession (await_transfer env s db).1.sessions
unfolding await_transfer transaction_with upsert_job ◌>>=◌ update_session
await-OneSession env s db none e h = rw e h
await-OneSession env s db (some t) e h = rw e (update-OneSession s.id waiting db (λ key x k. k) h)

close-OneSession :
    (env : Env) (s : Session) (db : Db)
    → OneSession db.sessions
    → OneSession (close_or_wait env s db).1.sessions
unfolding close_or_wait
close-OneSession env s db h = elim (Bool-cases (truthy s.transfer_id)) [
  | inl e ↦ rw e (await-OneSession env s db _ refl h)
  | inr e ↦ rw e (update-OneSession s.id cancelled db cancelled-key h)
]

end-OneSession :
    (env : Env) (id : String) (db : Db) (o : Option Session)
    → find_where (is_session id) db.sessions ≡ o
    → OneSession db.sessions
    → OneSession (end_session env id db).1.sessions
unfolding end_session session_with ◌>>=◌
end-OneSession env id db none e h = rw e h
end-OneSession env id db (some s) e h =
    elim (Bool-cases
      (not (session_status_eq s.status SessionStatus.active) || is_alive env.now s.expires_at)) [
        | inl c ↦ rw (e, c) h
        | inr c ↦ rw (e, c) (close-OneSession env s db h)
      ]

pub note-sessions :
    (env : Env) (r : Result InboundResult × Db)
    → (continue (note_result env) r).1.sessions ≡ r.1.sessions
unfolding note_result ◌>>=◌
note-sessions env (ok a, db) = refl
note-sessions env (err e, db) = refl

inbound-OneSession :
    (env : Env) (reader : TextReader) (input : InboundInput) (db : Db)
    → OneSession db.sessions
    → OneSession (accept_inbound env reader input db).1.sessions
unfolding accept_inbound receive_message ◌>>=◌
inbound-OneSession env reader input db h =
    let parsed = parse_message reader input.message_text in
    let consent = input.consent_given || parsed.consent_given in
    let existing = find_where (is_event input.external_event_id) db.inbound_events in
    let r = receive_once env input parsed consent existing db in
    same-OneSession (note-sessions env (commit db r))
      (commit-OneSession db r h (once-OneSession env input parsed consent existing db h))

-- However the messages and the expiries of sessions follow each other, and whether they return or
-- throw, a chat never has two active sessions.
pub OneSession-kept :
    (env : Env) (db : Db)
    → OneSession db.sessions
    → ((reader : TextReader) (input : InboundInput)
        → OneSession (accept_inbound env reader input db).1.sessions)
      × ((id : String) → OneSession (expire_session env id db).1.sessions)
unfolding expire_session ◌>>=◌
OneSession-kept env db h = (
  λ reader input. inbound-OneSession env reader input db h,
  λ id. commit-OneSession db (end_session env id db) h (end-OneSession env id db _ refl h),
)
