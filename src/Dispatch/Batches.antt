-- ===== src/Dispatch/Batches.antt =====
-- What one poll of zongo/apps/worker/src/durable-job-dispatcher.service.ts takes.
use zongo_v.Prelude.{ℕ, ◌≡◌, subst, Bool, true, false, select_where, select_where_same, arith}
use zongo_v.Prelude.Sorting.{IsFirst, take-sort_by-IsFirst}
use zongo_v.Db.Rows.{WorkerJob, JobType, JobStatus, Db}
use zongo_v.Worker.Claim.{is_claimable, lease_ran_out}
use zongo_v.Dispatch.Select.{is_polled, is_passed_over, poll}

-- Whether a job of a type in a status waits for the dispatcher.
abbrev pub waits : JobType → JobStatus → Bool
waits JobType.retry s = false
waits JobType.admin_alert s = false
waits t JobStatus.running = false
waits t JobStatus.succeeded = false
waits t JobStatus.pending = true
waits JobType.payout JobStatus.failed = false
waits JobType.collection JobStatus.failed = true
waits JobType.status_recheck JobStatus.failed = true
waits JobType.notification JobStatus.failed = true
waits JobType.reconciliation JobStatus.failed = true

is_polled-waits : (j : WorkerJob) → is_polled j ≡ waits j.job_type j.status
unfolding is_polled
is_polled-waits j = ground arith

-- A poll takes the oldest of the jobs that wait for the dispatcher (`waits`: those of the five kinds
-- that a worker runs that are pending or, if they are not payouts, failed). It takes at most twenty,
-- every one of them while there is room, and no job that it leaves out is older than one that it
-- takes.
pub poll-IsFirst :
    (db : Db)
    → IsFirst
        (λ j. j.created_at)
        20
        (select_where (λ j. waits j.job_type j.status) db.jobs)
        (poll db)
unfolding poll
poll-IsFirst db =
    subst (λ js. IsFirst (λ j. j.created_at) 20 js (poll db))
      (select_where_same is_polled (λ j. waits j.job_type j.status) db.jobs is_polled-waits)
      (take-sort_by-IsFirst _ 20 (select_where is_polled db.jobs))

-- The poll never returns a failed payout, so the test of the loop passes over nothing, and it
-- never returns a running job, also when its lease ran out and a claim would take it.
pub polled-claimable :
    (now : ℕ) (j : WorkerJob)
    → (is_polled j ≡ true → (is_passed_over j ≡ false) × (is_claimable now j ≡ true))
      × (j.status ≡ JobStatus.running
          → (is_polled j ≡ false) × (is_claimable now j ≡ lease_ran_out now j.lease_expires_at))
unfolding is_polled is_claimable
polled-claimable now j = (λ h. ground (arith, h), λ h. ground (arith, h))
