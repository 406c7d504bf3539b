-- ===== src/Worker/Exclusion.antt =====
-- One worker at a time holds a job: the claim of `process` in
-- zongo/apps/worker/src/worker-job.processor.ts.
use zongo_v.Prelude.{
  ℕ, ◌+◌, ◌≤◌, Bool, true, false, some, List, [], ◌∷◌, String, any_where, update_where, count_where,
  ◌≡◌, refl, arith, ap, subst,
}
use zongo_v.Db.Rows.{Db, WorkerJob}
use zongo_v.Db.Env.{Env}
use zongo_v.Db.Monad.{ok, ◌>>=◌}
use zongo_v.Worker.Ports.{WorkerJobInput, WorkerJobResult, Services}
use zongo_v.Worker.Store.{job_by_id}
use zongo_v.Worker.Claim.{lease_ms, is_claimable, can_claim, claimed, claim, durable_job}
use zongo_v.Worker.Process.{process}

-- A job just claimed cannot be claimed before its lease ran out.
claimed-is_claimable :
    (now later : ℕ) (j : WorkerJob)
    → later ≤ now + lease_ms
    → is_claimable later (claimed now j) ≡ false
unfolding is_claimable
claimed-is_claimable now later j h = ground arith

none-can_claim :
    (now : ℕ) (id : String) (jobs : List WorkerJob)
    → count_where (job_by_id id) jobs ≡ 0
    → any_where (can_claim now id) jobs ≡ false
none-can_claim now id [] h = refl
none-can_claim now id (j ∷ jobs) h = ground (arith, none-can_claim now id jobs)

update_where-none :
    {A : Type 0} (p : A → Bool) (f : A → A) (xs : List A)
    → any_where p xs ≡ false
    → update_where p f xs ≡ xs
update_where-none p f [] h = refl
update_where-none p f (x ∷ xs) h = ground (arith, update_where-none p f xs)

claimed-none :
    (now later : ℕ) (id : String) (jobs : List WorkerJob)
    → later ≤ now + lease_ms
    → count_where (job_by_id id) jobs ≤ 1
    → any_where (can_claim now id) jobs ≡ true
    → any_where (can_claim later id) (update_where (can_claim now id) (claimed now) jobs) ≡ false
claimed-none now later id [] h u c = absurd (ground arith)
claimed-none now later id (j ∷ jobs) h u c = ground (
  arith,
  claimed-is_claimable now later j h,
  none-can_claim now id jobs,
  none-can_claim later id jobs,
  claimed-none now later id jobs h,
  update_where-none (can_claim now id) (claimed now) jobs,
)

-- A claim that finds nothing to claim writes nothing.
claim-none :
    (now : ℕ) (id : String) (db : Db)
    → any_where (can_claim now id) db.jobs ≡ false
    → claim now id db ≡ (ok false, db)
unfolding claim ◌>>=◌
claim-none now id db h = rw (h, update_where-none (can_claim now id) (claimed now) db.jobs h)

after_claim : ℕ → String → Db → Db
after_claim now id db = record db { jobs = update_where (can_claim now id) (claimed now) db.jobs }

claim-inversion :
    (now : ℕ) (id : String) (db : Db) {db' : Db}
    → claim now id db ≡ (ok true, db')
    → (any_where (can_claim now id) db.jobs ≡ true) × (after_claim now id db ≡ db')
unfolding claim ◌>>=◌ after_claim
claim-inversion now id db c = (ground (arith, c), ap (λ r. r.1) c)

claim-excludes :
    (now later : ℕ) (id : String) (db : Db) {db' : Db}
    → count_where (job_by_id id) db.jobs ≤ 1
    → claim now id db ≡ (ok true, db')
    → later ≤ now + lease_ms
    → claim later id db' ≡ (ok false, db')
unfolding after_claim
claim-excludes now later id db {db'} u c h =
    let (taken, e) = claim-inversion now id db c in
    subst (λ d. claim later id d ≡ (ok false, d)) e
      (claim-none later id (after_claim now id db) (claimed-none now later id db.jobs h u taken))

durable_job-persisted :
    (env : Env) (job : WorkerJobInput) (id : String) (db : Db)
    → job.persisted_job_id ≡ some id
    → durable_job env job db ≡ (ok id, db)
unfolding ◌>>=◌
durable_job-persisted env job id db p = rw (p)

process-skips :
    (env : Env) (services : Services) (job : WorkerJobInput) (id : String) (db : Db)
    → durable_job env job db ≡ (ok id, db)
    → claim env.now id db ≡ (ok false, db)
    → process env services job db ≡ (ok WorkerJobResult.skipped, db)
unfolding process ◌>>=◌
process-skips env services job id db d c = rw (d, c)

-- Dispatched again while another worker holds its lease, a persisted job is skipped, and nothing
-- is written: if `claim` at `now` took the only job with that id, then `process` on that job at
-- any `later` up to the end of the lease returns `skipped` and leaves the database as it is,
-- whatever the services would answer.
pub process-skips_claimed :
    (now : ℕ) (later : Env) (services : Services) (job : WorkerJobInput) (id : String) (db db' : Db)
    → job.persisted_job_id ≡ some id
    → count_where (job_by_id id) db.jobs ≤ 1
    → claim now id db ≡ (ok true, db')
    → later.now ≤ now + lease_ms
    → process later services job db' ≡ (ok WorkerJobResult.skipped, db')
process-skips_claimed now later services job id db db' p u c h =
    process-skips later services job id db' (durable_job-persisted later job id db' p)
      (claim-excludes now later.now id db u c h)
