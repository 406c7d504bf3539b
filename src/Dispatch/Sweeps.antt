-- ===== src/Dispatch/Sweeps.antt =====
-- What the sweeps of zongo/apps/worker/src/durable-job-dispatcher.service.ts add.
use text.Mathlib.TextPositions.{eq_refl}
use zongo_v.Prelude.{
  ℕ, ◌/◌, ◌≡◌, refl, ap, inl, inr, Bool, true, ◌||◌, some, List, [], ◌∷◌, String, any_where, All,
  All-map, any_where-append_left, any_where-append_last, Bool-cases, arith,
}
use zongo_v.Domain.Lifecycle.{TransferStatus, status_eq}
use zongo_v.Db.Rows.{Transaction, WorkerJob, JobType, JobStatus, Db}
use zongo_v.Db.Env.{Env}
use zongo_v.Worker.Store.{add_job, job_by_key, recheck_key}
use zongo_v.Dispatch.Sweep.{
  Dispatcher, Order, answers, add_jobs, chosen_with, unsettled, reconcilable, status_job,
  reconciliation_job, reconciliation_key, is_due, sweep_statuses, sweep_reconciliation,
}

abbrev pub has_key : List WorkerJob → String → Bool
has_key jobs key = any_where (job_by_key key) jobs

add_job-key : (j : WorkerJob) (jobs : List WorkerJob) → has_key (add_job j jobs) j.dedup_key ≡ true
add_job-key j jobs = elim (Bool-cases (has_key jobs j.dedup_key)) [
  | inl e ↦ rw (e, e) refl
  | inr e ↦ rw e (any_where-append_last (job_by_key j.dedup_key) jobs j (eq_refl j.dedup_key))
]

add_job_keeps :
    (j : WorkerJob) (jobs : List WorkerJob) (key : String)
    → has_key jobs key ≡ true
    → has_key (add_job j jobs) key ≡ true
add_job_keeps j jobs key h = ground (arith, any_where-append_left (job_by_key key) jobs (j ∷ []))

module _ (make : Transaction → WorkerJob) where
  abbrev HasJob : List WorkerJob → Transaction → Type 0
  HasJob jobs t = has_key jobs (make t).dedup_key ≡ true

  add_jobs_keeps :
      (ts : List Transaction) (jobs : List WorkerJob) (key : String)
      → has_key jobs key ≡ true
      → has_key (add_jobs make ts jobs) key ≡ true
  unfolding add_jobs
  add_jobs_keeps [] jobs key h = h
  add_jobs_keeps (t ∷ ts) jobs key h =
      add_jobs_keeps ts (add_job (make t) jobs) key (add_job_keeps (make t) jobs key h)

  -- Every transfer has its job.
  add_jobs-keys :
      (ts : List Transaction) (jobs : List WorkerJob) → All (HasJob (add_jobs make ts jobs)) ts
  unfolding add_jobs
  add_jobs-keys [] jobs = tt
  add_jobs-keys (t ∷ ts) jobs = (
    add_jobs_keeps ts (add_job (make t) jobs) (make t).dedup_key (add_job-key (make t) jobs),
    add_jobs-keys ts (add_job (make t) jobs),
  )

  -- Nothing is added where every job is there.
  add_jobs_present :
      (ts : List Transaction) (jobs : List WorkerJob)
      → All (HasJob jobs) ts
      → add_jobs make ts jobs ≡ jobs
  unfolding add_jobs
  add_jobs_present [] jobs h = refl
  add_jobs_present (t ∷ ts) jobs (h, hs) = rw h (add_jobs_present ts jobs hs)

-- A transfer that waits for the partner.
abbrev pub is_unsettled : Transaction → Bool
is_unsettled t =
    status_eq t.status TransferStatus.pending_collection
    || status_eq t.status TransferStatus.pending_payout

-- A status recheck of a transfer, in this interval of the clock, that no worker took yet.
abbrev pub IsRecheck : Env → WorkerJob → Type 0
IsRecheck env j =
    (j.job_type ≡ JobType.status_recheck)
    × (j.status ≡ JobStatus.pending)
    × ((t : Transaction) × (j.transaction_id ≡ some t.id)
        × (j.transaction_reference ≡ t.reference)
        × (j.dedup_key ≡ recheck_key env t.id))

module _ (env : Env) (order : Order) (d : Dispatcher) (db : Db) where
  -- A due reconciliation sweep queues a reconciliation for each transfer that it chooses.
  pub sweep_reconciliation-covers :
      is_due d.last_reconciliation_sweep env.reconciliation_interval_ms env.now ≡ true
      → All
          (λ t.
            has_key
              (sweep_reconciliation env order answers d db).2.jobs
              (reconciliation_key env t.id)
            ≡ true)
          (chosen_with order reconcilable db)
  unfolding sweep_reconciliation
  sweep_reconciliation-covers due =
      rw due (add_jobs-keys (reconciliation_job env) (chosen_with order reconcilable db) db.jobs)

  module _ (d' : Dispatcher) (later : ℕ) where
    -- A second status sweep in the same interval of the clock, also by a dispatcher that was
    -- restarted in between, leaves the database as the first sweep left it.
    pub sweep_statuses-once :
        is_due d.last_status_sweep env.recheck_interval_ms env.now ≡ true
        → later / env.recheck_interval_ms ≡ env.now / env.recheck_interval_ms
        → let db' = (sweep_statuses env order answers d db).2 in
          (sweep_statuses (record env { now = later }) order answers d' db').2 ≡ db'
    unfolding sweep_statuses
    sweep_statuses-once due same =
        elim (Bool-cases (is_due d'.last_status_sweep env.recheck_interval_ms later)) [
          | inl e ↦
              rw (due, e)
                (ap (λ js. record db { jobs = js })
                  (add_jobs_present (status_job (record env { now = later })) _ _ (
                    All-map (λ t h. rw same h) (chosen_with order unsettled db)
                      (add_jobs-keys (status_job env) (chosen_with order unsettled db) db.jobs))))
          | inr e ↦ rw (due, e) refl
        ]

    -- So does a second reconciliation sweep.
    pub sweep_reconciliation-once :
        is_due d.last_reconciliation_sweep env.reconciliation_interval_ms env.now ≡ true
        → later / env.reconciliation_interval_ms ≡ env.now / env.reconciliation_interval_ms
        → let db' = (sweep_reconciliation env order answers d db).2 in
          (sweep_reconciliation (record env { now = later }) order answers d' db').2 ≡ db'
    unfolding sweep_reconciliation
    sweep_reconciliation-once due same =
        elim (Bool-cases
          (is_due d'.last_reconciliation_sweep env.reconciliation_interval_ms later)) [
            | inl e ↦
                rw (due, e)
                  (ap (λ js. record db { jobs = js })
                    (add_jobs_present (reconciliation_job (record env { now = later })) _ _ (
                      All-map (λ t h. rw same h) (chosen_with order reconcilable db)
                        (add_jobs-keys (reconciliation_job env) (chosen_with order reconcilable db)
                          db.jobs))))
            | inr e ↦ rw (due, e) refl
          ]
