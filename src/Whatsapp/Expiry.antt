-- ===== src/Whatsapp/Expiry.antt =====
-- `expireSession` of zongo/libs/whatsapp/src/whatsapp.service.ts.
use zongo_v.Prelude.{
  ℕ, Bool, true, not, ◌||◌, Option, none, some, [], ◌∷◌, String, find_where, leb, truthy, template,
  if◌then◌else◌,
}
use zongo_v.Db.Rows.{
  Transaction, WorkerJob, JobType, Payload, Session, SessionStatus, session_status_eq,
}
use zongo_v.Db.Env.{Env}
use zongo_v.Db.Monad.{
  plain, not_found, Action, ⊤, gets, or_throw, throw_if, transaction, ◌>>=◌, ◌>>◌,
}
use zongo_v.Worker.Store.{new_job, upsert_job, transaction_with}
use zongo_v.Whatsapp.Inbound.{is_session, update_session, cancelled, text_of}

-- `!expiresAt || expiresAt > now`
abbrev pub is_alive : ℕ → Option ℕ → Bool
is_alive now none = true
is_alive now (some expires_at) = not (leb expires_at now)

abbrev pub waiting : Session → Session
waiting s = record s { status = SessionStatus.waiting; expires_at = none }

abbrev pub timeout_key : String → String
timeout_key reference = template ("timeout-status-recheck:" ∷ reference ∷ [])

abbrev pub timeout_job : Env → Transaction → WorkerJob
timeout_job env t =
    new_job env (timeout_key t.reference) JobType.status_recheck t.reference (some t.id)
      (Payload.reason "SESSION_TIMEOUT")

unfoldable pub await_transfer : Env → Session → Action ⊤
await_transfer env s = do
  t ← transaction_with (text_of s.transfer_id)
  update_session s.id waiting
  upsert_job (timeout_job env t)

unfoldable pub session_with : String → Action Session
session_with id = do
  found ← gets (λ db. find_where (is_session id) db.sessions)
  or_throw found not_found

unfoldable pub close_or_wait : Env → Session → Action ⊤
close_or_wait env s =
    if truthy s.transfer_id then await_transfer env s else update_session s.id cancelled

unfoldable pub end_session : Env → String → Action ⊤
end_session env id = do
  s ← session_with id
  throw_if (not (session_status_eq s.status SessionStatus.active) || is_alive env.now s.expires_at)
      (plain "Only an expired active session can enter waiting state")
  close_or_wait env s

unfoldable pub expire_session : Env → String → Action ⊤
expire_session env id = transaction (end_session env id)
