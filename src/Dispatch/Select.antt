-- ===== src/Dispatch/Select.antt =====
-- The jobs that one round of zongo/apps/worker/src/durable-job-dispatcher.service.ts takes.
use zongo_v.Prelude.{
  ℕ, Bool, ◌&&◌, ◌||◌, Option, none, some, List, [], ◌∷◌, any_where, select_where, take,
}
use zongo_v.Prelude.Sorting.{sort_by}
use zongo_v.Db.Rows.{WorkerJob, JobType, JobStatus, job_type_eq, job_status_eq, Db}
use zongo_v.Worker.Ports.{JobKind, WorkerJobInput}

abbrev pub polled_types : List JobType
polled_types =
    JobType.collection ∷ JobType.payout ∷ JobType.status_recheck ∷ JobType.notification
    ∷ JobType.reconciliation ∷ []

abbrev pub retried_types : List JobType
retried_types =
    JobType.collection ∷ JobType.status_recheck ∷ JobType.notification ∷ JobType.reconciliation ∷ []

abbrev pub has_type : List JobType → WorkerJob → Bool
has_type types j = any_where (job_type_eq j.job_type) types

-- The `where` of the poll.
unfoldable pub is_polled : WorkerJob → Bool
is_polled j =
    has_type polled_types j
    && (job_status_eq j.status JobStatus.pending
        || (job_status_eq j.status JobStatus.failed && has_type retried_types j))

abbrev pub batch_size : ℕ
batch_size = 20

unfoldable pub poll : Db → List WorkerJob
poll db = take batch_size (sort_by (λ j. j.created_at) (select_where is_polled db.jobs))

-- The cast of `job.jobType`, which the poll makes safe.
abbrev pub kind_of : JobType → Option JobKind
kind_of JobType.collection = some JobKind.collection
kind_of JobType.payout = some JobKind.payout
kind_of JobType.status_recheck = some JobKind.status_recheck
kind_of JobType.notification = some JobKind.notification
kind_of JobType.reconciliation = some JobKind.reconciliation
kind_of JobType.retry = none
kind_of JobType.admin_alert = none

-- `if (job.jobType === JobType.PAYOUT && job.status === JobStatus.FAILED) continue`
abbrev pub is_passed_over : WorkerJob → Bool
is_passed_over j = job_type_eq j.job_type JobType.payout && job_status_eq j.status JobStatus.failed

abbrev pub input_of : WorkerJob → JobKind → WorkerJobInput
input_of j kind = record {
  transaction_reference = j.transaction_reference;
  kind = kind;
  payload = j.payload;
  persisted_job_id = some j.id;
}
