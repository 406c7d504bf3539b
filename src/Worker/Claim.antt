-- ===== src/Worker/Claim.antt =====
-- The claim of a job, in `process` of zongo/apps/worker/src/worker-job.processor.ts.
use zongo_v.Prelude.{
  ℕ, ◌+◌, Bool, false, ◌&&◌, ◌||◌, Option, none, some, List, [], ◌∷◌, String, find_where, any_where,
  update_where, ltb, template,
}
use zongo_v.Db.Rows.{WorkerJob, JobStatus, job_status_eq}
use zongo_v.Db.Env.{Env}
use zongo_v.Db.Monad.{Action, pure, gets, modify, ◌>>=◌, ◌>>◌}
use zongo_v.Worker.Ports.{WorkerJobInput, kind_name, job_type_of}
use zongo_v.Worker.Store.{job_by_id, job_by_key, new_job, upsert_job}

abbrev pub lease_ms : ℕ
lease_ms = 60000

abbrev pub dedup_key_of : WorkerJobInput → String
dedup_key_of job = template (job.transaction_reference ∷ ":" ∷ kind_name job.kind ∷ [])

-- What the upsert creates: a job without the transfer's id.
abbrev pub fresh_job : Env → WorkerJobInput → WorkerJob
fresh_job env job =
    new_job env (dedup_key_of job) (job_type_of job.kind) job.transaction_reference none job.payload

-- The row that the upsert returns.
abbrev pub stored_id : WorkerJob → List WorkerJob → String
stored_id j rows = elim (find_where (job_by_key j.dedup_key) rows) [ none ↦ j.id | some k ↦ k.id ]

-- The job to claim: the dispatcher's, or the one with the transfer's key, which may be created. The
-- identifier of a row is a `cuid()`, so one that is given is not the empty text.
abbrev pub durable_job : Env → WorkerJobInput → Action String
durable_job env job = elim job.persisted_job_id [
  | some id ↦ pure id
  | none ↦ (do
    id ← gets (λ db. stored_id (fresh_job env job) db.jobs)
    upsert_job (fresh_job env job)
    pure id)
]

abbrev pub lease_ran_out : ℕ → Option ℕ → Bool
lease_ran_out now none = false
lease_ran_out now (some expires_at) = ltb expires_at now

unfoldable pub is_claimable : ℕ → WorkerJob → Bool
is_claimable now j =
    job_status_eq j.status JobStatus.pending
    || job_status_eq j.status JobStatus.failed
    || (job_status_eq j.status JobStatus.running && lease_ran_out now j.lease_expires_at)

abbrev pub can_claim : ℕ → String → WorkerJob → Bool
can_claim now id j = job_by_id id j && is_claimable now j

abbrev pub claimed : ℕ → WorkerJob → WorkerJob
claimed now j = record j {
  status = JobStatus.running;
  locked_at = some now;
  lease_expires_at = some (now + lease_ms);
  attempts = j.attempts + 1;
  last_error = none;
}

-- `workerJob.updateMany(…)` of the claim: whether a row was claimed.
unfoldable pub claim : ℕ → String → Action Bool
claim now id = do
  taken ← gets (λ db. any_where (can_claim now id) db.jobs)
  modify (λ db. record db { jobs = update_where (can_claim now id) (claimed now) db.jobs })
  pure taken
