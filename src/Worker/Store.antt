-- ===== src/Worker/Store.antt =====
-- The updates and upserts of zongo/apps/worker/src/worker-job.processor.ts on transfers and jobs.
use zongo_v.Prelude.{
  ℕ, ◌/◌, Bool, not, Option, none, some, List, [], ◌∷◌, ◌++◌, String, find_where, update_where,
  any_where, str_eq, template, if◌then◌else◌,
}
use zongo_v.Db.Rows.{Transaction, WorkerJob, JobType, JobStatus, Payload}
use zongo_v.Db.Env.{Env}
use zongo_v.Db.Monad.{not_found, Action, ⊤, gets, or_throw, modify, throw_if, ◌>>=◌, ◌>>◌}
use zongo_v.Ledger.Posting.{by_id}

abbrev pub job_by_id : String → WorkerJob → Bool
job_by_id id j = str_eq j.id id

abbrev pub job_by_key : String → WorkerJob → Bool
job_by_key key j = str_eq j.dedup_key key

abbrev pub by_reference : String → Transaction → Bool
by_reference reference t = str_eq t.reference reference

-- `transferTransaction.update({ where: { id } })`
unfoldable pub update_transaction : String → (Transaction → Transaction) → Action ⊤
update_transaction id f = do
  missing ← gets (λ db. not (any_where (by_id id) db.transactions))
  throw_if missing not_found
  modify (λ db. record db { transactions = update_where (by_id id) f db.transactions })

-- `workerJob.update({ where: { id } })`
unfoldable pub update_job : String → (WorkerJob → WorkerJob) → Action ⊤
update_job id f = do
  missing ← gets (λ db. not (any_where (job_by_id id) db.jobs))
  throw_if missing not_found
  modify (λ db. record db { jobs = update_where (job_by_id id) f db.jobs })

-- `findUniqueOrThrow({ where: { reference } })`
unfoldable pub transaction_of : String → Action Transaction
transaction_of reference = do
  found ← gets (λ db. find_where (by_reference reference) db.transactions)
  or_throw found not_found

-- `findUniqueOrThrow({ where: { id } })`
unfoldable pub transaction_with : String → Action Transaction
transaction_with id = do
  found ← gets (λ db. find_where (by_id id) db.transactions)
  or_throw found not_found

abbrev pub new_job : Env → String → JobType → String → Option String → Payload → WorkerJob
new_job env key job_type reference transaction_id payload = record {
  id = env.new_id key;
  dedup_key = key;
  job_type = job_type;
  transaction_reference = reference;
  transaction_id = transaction_id;
  status = JobStatus.pending;
  payload = payload;
  attempts = 0;
  locked_at = none;
  lease_expires_at = none;
  processed_at = none;
  last_error = none;
  created_at = env.now;
}

abbrev pub add_job : WorkerJob → List WorkerJob → List WorkerJob
add_job j jobs = if any_where (job_by_key j.dedup_key) jobs then jobs else jobs ++ j ∷ []

-- `workerJob.upsert({ where: { dedupKey }, create, update: {} })`
unfoldable pub upsert_job : WorkerJob → Action ⊤
upsert_job j = modify (λ db. record db { jobs = add_job j db.jobs })

abbrev pub succeed_job : Env → WorkerJob → WorkerJob
succeed_job env j = record j {
  status = JobStatus.succeeded;
  processed_at = some env.now;
  lease_expires_at = none;
}

abbrev pub failed_job : String → WorkerJob → WorkerJob
failed_job message j = record j {
  status = JobStatus.failed;
  last_error = some message;
  lease_expires_at = none;
}

abbrev pub postponed_job : String → WorkerJob → WorkerJob
postponed_job reason j = record j {
  status = JobStatus.pending;
  last_error = some reason;
  lease_expires_at = none;
}

-- `failJob`
unfoldable pub fail_job : String → String → Action ⊤
fail_job id message = update_job id (failed_job message)

abbrev pub payout_key : String → String
payout_key reference = template (reference ∷ ":PAYOUT" ∷ [])

-- `payoutJob`
unfoldable pub payout_job : Env → Transaction → Action ⊤
payout_job env t = upsert_job (
    new_job env (payout_key t.reference) JobType.payout t.reference (some t.id)
      (Payload.reason "COLLECTION_SUCCESS"))

abbrev pub bucket_of : Env → ℕ
bucket_of env = env.now / env.recheck_interval_ms

abbrev pub recheck_key : Env → String → String
recheck_key env id = template ("provider-status:" ∷ id ∷ ":" ∷ env.decimal (bucket_of env) ∷ [])
