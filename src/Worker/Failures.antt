-- ===== src/Worker/Failures.antt =====
-- What a failed job does to its transfer: `fail` of
-- zongo/apps/worker/src/worker-job.processor.ts.
use zongo_v.Prelude.{
  Bool, true, false, ◌&&◌, some, List, [], ◌∷◌, String, ◌≡◌, refl, ap, ◌∙◌, arith, find_where,
  any_where, update_where, find_where-update_where, if◌then◌else◌,
}
use zongo_v.Domain.Lifecycle.{TransferStatus}
use zongo_v.Db.Rows.{Transaction, WorkerJob, Db}
use zongo_v.Db.Env.{Env}
use zongo_v.Db.Monad.{ok, transaction, ◌>>=◌, ◌>>◌}
use zongo_v.Db.Invariant.{Keeps-bind, bind-reaches, if-reaches}
use zongo_v.Ledger.Posting.{by_id}
use zongo_v.Worker.Ports.{JobKind}
use zongo_v.Worker.Store.{update_transaction, update_job, failed_job, job_by_id}
use zongo_v.Worker.Failure.{is_collection, failure_status, mark_failed, fail}
use zongo_v.Worker.Frames.{
  OnTransfers, append_audit-Keeps, update_job-Keeps, resolve_waiting_session-Keeps,
}

any-of-find :
    {A : Type 0} (p : A → Bool) (xs : List A) {a : A}
    → find_where p xs ≡ some a
    → any_where p xs ≡ true
any-of-find p [] h = absurd (ground arith)
any-of-find p (x ∷ xs) {a} h = ground (arith, any-of-find p xs {a = a})

-- The transfer found under an id.
abbrev Found : String → Transaction → List Transaction → Type 0
Found id t rows = find_where (by_id id) rows ≡ some t

-- The transaction of `fail` writes both rows.
mark-writes :
    (id job_id : String) (f : Transaction → Transaction) (g : WorkerJob → WorkerJob) (db : Db)
    → any_where (by_id id) db.transactions ≡ true
    → any_where (job_by_id job_id) db.jobs ≡ true
    → transaction (update_transaction id f >> update_job job_id g) db ≡ (
      ok tt,
      record db {
        transactions = update_where (by_id id) f db.transactions;
        jobs = update_where (job_by_id job_id) g db.jobs;
      },
    )
unfolding update_transaction update_job ◌>>=◌
mark-writes id job_id f g db h k = rw (h, k)

choice-then :
    (id : String) (rows : List Transaction) (b : Bool) (t0 t1 : Transaction)
    → b ≡ true
    → Found id t0 rows
    → Found id (if b then t0 else t1) rows
choice-then id rows b t0 t1 e h = rw (e, h)

choice-else :
    (t : Transaction) (kind : JobKind) (message : String) (b : Bool) (t0 : Transaction)
    (job_id : String) (db : Db)
    → b ≡ false
    → Found t.id t0 db.transactions
    → any_where (job_by_id job_id) db.jobs ≡ true
    → Found t.id
        (if b then t0 else mark_failed (failure_status kind) message t0)
        (transaction
          (update_transaction t.id (mark_failed (failure_status kind) message)
            >> update_job job_id (failed_job message))
          db).1.transactions
choice-else t kind message b t0 job_id db e h k =
    let f = mark_failed (failure_status kind) message in
    rw (
      e,
      mark-writes t.id job_id f (failed_job message) db (any-of-find (by_id t.id) db.transactions h)
          k,
      find_where-update_where (by_id t.id) f db.transactions (λ x. refl) h,
    )

fail-row :
    (env : Env) (job_id : String) (t : Transaction) (kind : JobKind) (message : String)
    (retryable : Bool) (t0 : Transaction) (db : Db)
    → find_where (by_id t.id) db.transactions ≡ some t0
    → any_where (job_by_id job_id) db.jobs ≡ true
    → find_where (by_id t.id) (fail env job_id t kind message retryable db).1.transactions
      ≡ some (
          if is_collection kind && retryable
          then t0
          else mark_failed (failure_status kind) message t0)
unfolding fail
fail-row env job_id t kind message retryable t0 db h k =
    let retried = is_collection kind && retryable in
    let after = if retried then t0 else mark_failed (failure_status kind) message t0 in
    if-reaches (OnTransfers (Found t.id after)) _ _ _ db
      (λ e.
        (Keeps-bind _ _ (update_job-Keeps (Found t.id after) _ _)
            λ u. append_audit-Keeps (Found t.id after) _ _ _ _).at
          db (choice-then t.id db.transactions retried t0 _ e h))
      λ e.
        bind-reaches (OnTransfers (Found t.id after)) _ _ db
          (choice-else t kind message retried t0 job_id db e h k)
          λ u.
            Keeps-bind _ _ (append_audit-Keeps (Found t.id after) _ _ _ _)
              λ v. resolve_waiting_session-Keeps (Found t.id after) _ _ _

-- What a failed job leaves of its transfer, for each kind of job.
abbrev pub after_failure : JobKind → Bool → String → Transaction → Transaction
after_failure JobKind.collection true message t = t
after_failure JobKind.collection false message t = record t {
  status = TransferStatus.collection_failed;
  failed_reason = some message;
}
after_failure JobKind.payout retryable message t = record t {
  status = TransferStatus.payout_failed;
  failed_reason = some message;
}
after_failure JobKind.status_recheck retryable message t = record t {
  status = TransferStatus.payout_failed;
  failed_reason = some message;
}
after_failure JobKind.notification retryable message t = record t {
  status = TransferStatus.payout_failed;
  failed_reason = some message;
}
after_failure JobKind.reconciliation retryable message t = record t {
  status = TransferStatus.payout_failed;
  failed_reason = some message;
}

after_failure-row :
    (kind : JobKind) (retryable : Bool) (message : String) (t : Transaction)
    → (if is_collection kind && retryable then t else mark_failed (failure_status kind) message t)
      ≡ after_failure kind retryable message t
after_failure-row JobKind.collection true message t = refl
after_failure-row JobKind.collection false message t = refl
after_failure-row JobKind.payout retryable message t = refl
after_failure-row JobKind.status_recheck retryable message t = refl
after_failure-row JobKind.notification retryable message t = refl
after_failure-row JobKind.reconciliation retryable message t = refl

-- A row found under an id after `fail`, by the kind of the job and whether it may be retried
-- (`after_failure`). A collection that may be retried leaves its transfer as it was. A collection
-- that may not sets the status to `COLLECTION_FAILED`. Any other failed job, a status recheck or a
-- reconciliation too, sets it to `PAYOUT_FAILED`. Either way the message is the reason, and the
-- status that the transfer had does not matter. The job and the transfer are there.
pub fail-sets_status :
    (env : Env) (job_id : String) (t : Transaction) (kind : JobKind) (message : String)
    (retryable : Bool) (t0 : Transaction) (db : Db)
    → find_where (by_id t.id) db.transactions ≡ some t0
    → any_where (job_by_id job_id) db.jobs ≡ true
    → find_where (by_id t.id) (fail env job_id t kind message retryable db).1.transactions
      ≡ some (after_failure kind retryable message t0)
fail-sets_status env job_id t kind message retryable t0 db h k =
    fail-row env job_id t kind message retryable t0 db h k
    ∙ ap some (after_failure-row kind retryable message t0)
