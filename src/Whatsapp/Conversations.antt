-- ===== src/Whatsapp/Conversations.antt =====
-- What a message to zongo/libs/whatsapp/src/whatsapp.service.ts may change.
use mathlib.Core.Option.{some-injective}
use text.Mathlib.TextEquality.{eq_iff}
use zongo_v.Prelude.{
  ◌≡◌, refl, ap, sym, ◌∙◌, inl, inr, Bool, true, false, not, ◌&&◌, ◌||◌, Option, none, some, List,
  [], ◌∷◌, String, find_where, str_eq, truthy, find_where_holds, find_where-append_some,
  find_where-update_unselected, Bool-cases, arith,
}
use zongo_v.Db.Rows.{
  Session, SessionStatus, session_status_eq, ChatIntent, Transaction, InboundEvent, Db,
}
use zongo_v.Db.Env.{Env}
use zongo_v.Db.Monad.{Result, ok, err, commit, ◌>>=◌}
use zongo_v.Ledger.Posting.{by_id}
use zongo_v.Transfer.Checks.{chat_key, owns_key}
use zongo_v.Worker.Store.{upsert_job, transaction_with}
use zongo_v.Whatsapp.Message.{TextReader, ParsedMessage, parse_message}
use zongo_v.Whatsapp.Keys.{waiting-sessions, note-sessions}
use zongo_v.Whatsapp.Inbound.{
  InboundInput, InboundResult, is_session, is_event, cancelled, consented, update_session,
  intent_eq, text_of, answer_waiting, answer_cancel, answer_consent, answer_open, answer_active,
  answer_new, answer, new_session, receive_once, receive_message, accept_inbound,
}

-- The row that a chat key finds is the one that its identifier finds, since identifiers are unique.
abbrev pub KeysMatch : List Session → Type 0
KeysMatch ss =
    (key : String) (s : Session)
    → find_where (owns_key key) ss ≡ some s
    → find_where (is_session s.id) ss ≡ some s

-- What a message leaves as it is: the transfers, the events, and each session with a transfer.
abbrev pub Untouched : Db → Db → Type 0
Untouched db db' =
    (db'.transactions ≡ db.transactions)
    × (db'.ledger_entries ≡ db.ledger_entries)
    × (db'.inbound_events ≡ db.inbound_events)

waiting-Untouched :
    (env : Env) (s : Session) (id : String) (db : Db) (o : Option Transaction)
    → find_where (by_id id) db.transactions ≡ o
    → Untouched db (answer_waiting env s id db).1
unfolding answer_waiting transaction_with upsert_job ◌>>=◌
waiting-Untouched env s id db none e = rw e (refl, refl, refl)
waiting-Untouched env s id db (some t) e = rw e (refl, refl, refl)

open-Untouched :
    (env : Env) (parsed : ParsedMessage) (s : Session) (db : Db)
    → Untouched db (answer_open env parsed s db).1
unfolding answer_open answer_cancel answer_consent update_session ◌>>=◌
open-Untouched env parsed s db = ground arith

active-Untouched :
    (env : Env) (parsed : ParsedMessage) (s : Session) (db : Db)
    → Untouched db (answer_active env parsed s db).1
unfolding answer_active
active-Untouched env parsed s db =
    elim (Bool-cases (session_status_eq s.status SessionStatus.waiting && truthy s.transfer_id)) [
      | inl e ↦ rw e (waiting-Untouched env s (text_of s.transfer_id) db _ refl)
      | inr e ↦ rw e (open-Untouched env parsed s db)
    ]

new-Untouched :
    (env : Env) (input : InboundInput) (parsed : ParsedMessage) (consent : Bool) (db : Db)
    → Untouched db (answer_new env input parsed consent db).1
unfolding answer_new ◌>>=◌
new-Untouched env input parsed consent db = ground arith

pub answer-Untouched :
    (env : Env) (input : InboundInput) (parsed : ParsedMessage) (consent : Bool)
    → (o : Option Session) (db : Db) → Untouched db (answer env input parsed consent o db).1
answer-Untouched env input parsed consent none db = new-Untouched env input parsed consent db
answer-Untouched env input parsed consent (some s) db = active-Untouched env parsed s db

module _ (id : String) (s : Session) where
  -- A session with a transfer, as its identifier finds it.
  abbrev Stays : Db → Type 0
  Stays db = find_where (is_session id) db.sessions ≡ some s

  update-Stays :
      (a : Session) (f : Session → Session) (db : Db)
      → ((x : Session) → (f x).id ≡ x.id)
      → truthy s.transfer_id ≡ true
      → truthy a.transfer_id ≡ false
      → find_where (is_session a.id) db.sessions ≡ some a
      → Stays db
      → Stays (update_session a.id f db).1
  unfolding update_session ◌>>=◌
  update-Stays a f db keeps busy idle there h = elim (Bool-cases (is_session a.id s)) [
    | inl e ↦
        let s_id : s.id ≡ id =
          (eq_iff s.id id).0 (find_where_holds (is_session id) db.sessions h) in
        let same : s ≡ a = some-injective _ _ (
          sym h
          ∙ ap (λ i. find_where (is_session i) db.sessions) (sym s_id ∙ (eq_iff s.id a.id).0 e)
          ∙ there) in
        absurd (cc (busy, idle, ap (λ x. truthy x.transfer_id) same))
    | inr e ↦
        find_where-update_unselected (is_session id) (is_session a.id) f db.sessions
          (λ x. ap (λ i. str_eq i id) (keeps x)) h e
  ]

  module _ (busy : truthy s.transfer_id ≡ true) where
    cancel-Stays :
        (a : Session) (db : Db)
        → find_where (is_session a.id) db.sessions ≡ some a
        → Stays db
        → Stays (answer_cancel a db).1
    unfolding answer_cancel ◌>>=◌ update_session
    cancel-Stays a db there h = elim (Bool-cases (truthy a.transfer_id)) [
      | inl e ↦ rw e h
      | inr e ↦ rw e (update-Stays a cancelled db (λ x. refl) busy e there h)
    ]

    open-Stays :
        (env : Env) (parsed : ParsedMessage) (a : Session) (db : Db)
        → find_where (is_session a.id) db.sessions ≡ some a
        → Stays db
        → Stays (answer_open env parsed a db).1
    unfolding answer_open answer_consent ◌>>=◌ update_session
    open-Stays env parsed a db there h =
        elim (Bool-cases (intent_eq parsed.intent ChatIntent.cancel)) [
          | inl e ↦ rw e (cancel-Stays a db there h)
          | inr e ↦
              elim (Bool-cases
                (intent_eq parsed.intent ChatIntent.consent && not (truthy a.transfer_id))) [
                  | inl c ↦
                      rw (e, c)
                        (update-Stays a (consented env.now parsed.locale) db (λ x. refl) busy
                          (ground (arith, c)) there h)
                  | inr c ↦ rw (e, c) h
                ]
        ]

    active-Stays :
        (env : Env) (parsed : ParsedMessage) (a : Session) (db : Db)
        → find_where (is_session a.id) db.sessions ≡ some a
        → Stays db
        → Stays (answer_active env parsed a db).1
    unfolding answer_active
    active-Stays env parsed a db there h =
        elim (Bool-cases
          (session_status_eq a.status SessionStatus.waiting && truthy a.transfer_id)) [
            | inl e ↦ rw e (
                ap (find_where (is_session id))
                  (waiting-sessions env a (text_of a.transfer_id) db _ refl)
                ∙ h)
            | inr e ↦ rw e (open-Stays env parsed a db there h)
          ]

    new-Stays :
        (env : Env) (input : InboundInput) (parsed : ParsedMessage) (consent : Bool) (db : Db)
        → Stays db
        → Stays (answer_new env input parsed consent db).1
    unfolding answer_new ◌>>=◌
    new-Stays env input parsed consent db h =
        elim (Bool-cases (
          intent_eq parsed.intent ChatIntent.cancel || intent_eq parsed.intent ChatIntent.status)) [
            | inl e ↦ rw e h
            | inr e ↦ rw e (
                find_where-append_some (is_session id) db.sessions
                  (new_session env input parsed consent ∷ []) h)
          ]

    answer-Stays :
        (env : Env) (input : InboundInput) (parsed : ParsedMessage) (consent : Bool)
        → (o : Option Session) (db : Db)
        → find_where (owns_key (chat_key input.chat_id)) db.sessions ≡ o
        → KeysMatch db.sessions
        → Stays db
        → Stays (answer env input parsed consent o db).1
    answer-Stays env input parsed consent none db e match h =
        new-Stays env input parsed consent db h
    answer-Stays env input parsed consent (some a) db e match h =
        active-Stays env parsed a db (match (chat_key input.chat_id) a e) h

    once-Stays :
        (env : Env) (input : InboundInput) (parsed : ParsedMessage) (consent : Bool)
        → (o : Option InboundEvent) (db : Db) → KeysMatch db.sessions
        → Stays db
        → Stays (receive_once env input parsed consent o db).1
    unfolding ◌>>=◌
    once-Stays env input parsed consent (some e) db match h = h
    once-Stays env input parsed consent none db match h =
        answer-Stays env input parsed consent _ _ refl match h

    commit-Stays :
        (db : Db) (r : Result InboundResult × Db) → Stays db → Stays r.1 → Stays (commit db r).1
    commit-Stays db (ok a, db') h k = k
    commit-Stays db (err e, db') h k = h

    -- A session that a transfer was accepted in stays as it is, its status and its key included,
    -- whatever message arrives in its chat or another one: it cannot be cancelled or restarted from
    -- the chat. The row that a chat key finds is the one of its identifier.
    pub busy-Stays :
        (env : Env) (reader : TextReader) (input : InboundInput) (db : Db)
        → KeysMatch db.sessions
        → Stays db
        → Stays (accept_inbound env reader input db).1
    unfolding accept_inbound receive_message ◌>>=◌
    busy-Stays env reader input db match h =
        let parsed = parse_message reader input.message_text in
        let consent = input.consent_given || parsed.consent_given in
        let existing = find_where (is_event input.external_event_id) db.inbound_events in
        let r = receive_once env input parsed consent existing db in
        ap (find_where (is_session id)) (note-sessions env (commit db r))
        ∙ commit-Stays db r h (once-Stays env input parsed consent existing db match h)
