-- ===== src/Worker/Frames.antt =====
-- What the calls of zongo/apps/worker/src/worker-job.processor.ts keep of the transfers.
use zongo_v.Prelude.{ℕ, Option, none, some, List, String}
use zongo_v.Domain.Lifecycle.{TransferStatus}
use zongo_v.Db.Rows.{Db, Transaction, Session, WorkerJob, AuditEventType}
use zongo_v.Db.Env.{Env}
use zongo_v.Db.Invariant.{
  Keeps, Keeps-pure, Keeps-gets, Keeps-or_throw, Keeps-transaction, Keeps-throw_if, Keeps-when,
  Keeps-modify, Keeps-bind,
}
use zongo_v.Ledger.Posting.{
  LifecycleEvent, append_audit, append_lifecycle_entries, persist_reconciliation,
}
use zongo_v.Worker.Store.{update_job, upsert_job, transaction_of, transaction_with, payout_job}
use zongo_v.Worker.Sessions.{
  close_and_notify, resolve_session, resolve_waiting_session, record_event,
  record_lifecycle_success, event_of,
}

-- A property of the table of transfers.
module _ (P : List Transaction → Type 0) where
  abbrev pub OnTransfers : Db → Type 0
  OnTransfers db = P db.transactions

  pub append_audit-Keeps :
      (kind : AuditEventType) (name : String) (id : Option String) (now : ℕ)
      → Keeps OnTransfers (append_audit kind name id now)
  append_audit-Keeps kind name id now = Keeps-modify _ (λ db h. h)

  pub update_job-Keeps :
      (id : String) (f : WorkerJob → WorkerJob) → Keeps OnTransfers (update_job id f)
  unfolding update_job
  update_job-Keeps id f =
      Keeps-bind _ _ (Keeps-gets _)
        λ missing. Keeps-bind _ _ (Keeps-throw_if _ _) λ u. Keeps-modify _ (λ db h. h)

  pub upsert_job-Keeps : (j : WorkerJob) → Keeps OnTransfers (upsert_job j)
  unfolding upsert_job
  upsert_job-Keeps j = Keeps-modify _ (λ db h. h)

  pub append_lifecycle_entries-Keeps :
      (now : ℕ) (id : String) (event : LifecycleEvent)
      → Keeps OnTransfers (append_lifecycle_entries now id event)
  unfolding append_lifecycle_entries
  append_lifecycle_entries-Keeps now id event = Keeps-bind _ _ (Keeps-gets _) λ found.
      Keeps-bind _ _ (Keeps-or_throw _ _) λ t. Keeps-bind _ _ (Keeps-gets _) λ posted.
        Keeps-bind _ _ (Keeps-modify _ (λ db h. h)) λ u. Keeps-when _ _ (append_audit-Keeps _ _ _ _)

  pub persist_reconciliation-Keeps : (id : String) → Keeps OnTransfers (persist_reconciliation id)
  unfolding persist_reconciliation
  persist_reconciliation-Keeps id = Keeps-bind _ _ (Keeps-gets _) λ found.
      Keeps-bind _ _ (Keeps-or_throw _ _) λ t. Keeps-bind _ _ (Keeps-gets _) λ snapshot.
        Keeps-bind _ _ (Keeps-modify _ (λ db h. h))
          λ u. Keeps-bind _ _ (Keeps-when _ _ (Keeps-modify _ (λ db h. h))) λ v. Keeps-pure _

  transaction_with-Keeps : (id : String) → Keeps OnTransfers (transaction_with id)
  unfolding transaction_with
  transaction_with-Keeps id = Keeps-bind _ _ (Keeps-gets _) λ found. Keeps-or_throw _ _

  pub transaction_of-Keeps : (reference : String) → Keeps OnTransfers (transaction_of reference)
  unfolding transaction_of
  transaction_of-Keeps reference = Keeps-bind _ _ (Keeps-gets _) λ found. Keeps-or_throw _ _

  close_and_notify-Keeps :
      (env : Env) (t : Transaction) (s : Session) → Keeps OnTransfers (close_and_notify env t s)
  unfolding close_and_notify
  close_and_notify-Keeps env t s = Keeps-transaction _ (
      Keeps-bind _ _ (Keeps-modify _ (λ db h. h)) λ u.
        Keeps-bind _ _ (Keeps-gets _)
          λ intent. Keeps-bind _ _ (Keeps-modify _ (λ db h. h)) λ v. upsert_job-Keeps _)

  resolve_session-Keeps :
      (env : Env) (id : String) (s : Option Session) → Keeps OnTransfers (resolve_session env id s)
  resolve_session-Keeps env id none = Keeps-pure _
  resolve_session-Keeps env id (some s) =
      Keeps-when _ _
        (Keeps-bind _ _ (transaction_with-Keeps id) λ t. close_and_notify-Keeps env t s)

  pub resolve_waiting_session-Keeps :
      (env : Env) (id : String) (status : TransferStatus)
      → Keeps OnTransfers (resolve_waiting_session env id status)
  unfolding resolve_waiting_session
  resolve_waiting_session-Keeps env id status =
      Keeps-when _ _ (Keeps-bind _ _ (Keeps-gets _) λ s. resolve_session-Keeps env id s)

  record_event-Keeps :
      (env : Env) (id : String) (event : Option LifecycleEvent)
      → Keeps OnTransfers (record_event env id event)
  record_event-Keeps env id none = Keeps-pure _
  record_event-Keeps env id (some event) =
      Keeps-bind _ _ (append_lifecycle_entries-Keeps _ _ _)
        λ u. Keeps-bind _ _ (persist_reconciliation-Keeps id) λ r. Keeps-pure _

  pub record_lifecycle_success-Keeps :
      (env : Env) (id : String) (status : TransferStatus)
      → Keeps OnTransfers (record_lifecycle_success env id status)
  unfolding record_lifecycle_success
  record_lifecycle_success-Keeps env id status = record_event-Keeps env id (event_of status)

  pub payout_job-Keeps : (env : Env) (t : Transaction) → Keeps OnTransfers (payout_job env t)
  unfolding payout_job
  payout_job-Keeps env t = upsert_job-Keeps _
