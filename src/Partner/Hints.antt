-- ===== src/Partner/Hints.antt =====
-- The partner's webhook is a hint: `apply` of zongo/libs/partner/src/lib/pretium-webhook.service.ts.
use zongo_v.Prelude.{
  Bool, true, false, not, ◌&&◌, ◌≡◌, refl, ◌⊎◌, inl, inr, Option, none, some, List, [], ◌∷◌, ◌++◌,
  String, arith, find_where, any_where, template, Bool-cases,
}
use zongo_v.Domain.Lifecycle.{
  TransferStatus, no_context, status_eq, allowed_transitions, can_transition,
}
use zongo_v.Db.Rows.{Transaction, WorkerJob, JobType, JobStatus, Db}
use zongo_v.Db.Env.{Env}
use zongo_v.Db.Monad.{Result, ok, err, domain, partner_callback_unknown, ◌>>=◌}
use zongo_v.Worker.Store.{upsert_job, job_by_key}
use zongo_v.Worker.Recheck.{status_name}
use zongo_v.Partner.Status.{map_status}
use zongo_v.Partner.Webhook.{
  WebhookInput, WebhookResult, refers_to, webhook_index, callback_job, is_closed, not_applied,
  receive, note_callback, ask_for_recheck, apply_webhook,
}

abbrev pub hint_key : String → TransferStatus → String
hint_key id status = template ("callback-status-recheck:" ∷ id ∷ ":" ∷ status_name status ∷ [])

-- A status recheck of a transfer that no worker took yet, for a status that the partner reported.
abbrev pub IsRecheckOf : Transaction → TransferStatus → WorkerJob → Type 0
IsRecheckOf t status j =
    (j.job_type ≡ JobType.status_recheck)
    × (j.status ≡ JobStatus.pending)
    × (j.transaction_id ≡ some t.id)
    × (j.transaction_reference ≡ t.reference)
    × (j.dedup_key ≡ hint_key t.id status)

-- The partner reports another status, which the lifecycle allows next, for the first time.
abbrev pub is_news : Transaction → TransferStatus → List WorkerJob → Bool
is_news t status jobs =
    not (status_eq t.status status)
    && can_transition t.status status no_context
    && not (any_where (job_by_key (hint_key t.id status)) jobs)

-- What a callback for a known transfer leaves: news adds a recheck, anything else nothing.
abbrev pub Asks : Transaction → TransferStatus → List WorkerJob → List WorkerJob → Type 0
Asks t status jobs jobs' =
    ((is_news t status jobs ≡ true)
      × ((j : WorkerJob) × (jobs' ≡ jobs ++ j ∷ []) × IsRecheckOf t status j))
    ⊎ ((is_news t status jobs ≡ false) × (jobs' ≡ jobs))

-- The tables that a callback must not touch.
abbrev pub SameMoney : Db → Db → Type 0
SameMoney db db' =
    (db'.transactions ≡ db.transactions)
    × (db'.ledger_entries ≡ db.ledger_entries)
    × (db'.reconciliations ≡ db.reconciliations)
    × (db'.sessions ≡ db.sessions)

closed-quiet :
    (s status : TransferStatus)
    → is_closed s ≡ true
    → not (status_eq s status) && can_transition s status no_context ≡ false
unfolding can_transition allowed_transitions
closed-quiet TransferStatus.collection_failed status h = ground arith
closed-quiet TransferStatus.payout_failed status h = ground arith
closed-quiet TransferStatus.payout_success status h = ground arith
closed-quiet TransferStatus.initiated status h = absurd (ground arith)
closed-quiet TransferStatus.pending_collection status h = absurd (ground arith)
closed-quiet TransferStatus.collection_success status h = absurd (ground arith)
closed-quiet TransferStatus.pending_payout status h = absurd (ground arith)

receive-Asks :
    (env : Env) (t : Transaction) (status : TransferStatus) (db : Db)
    → Asks t status db.jobs (receive env t status db).1.jobs
unfolding receive note_callback ask_for_recheck upsert_job ◌>>=◌
receive-Asks env t status db = elim (Bool-cases (is_closed t.status)) [
  | inl closed ↦ inr (ground (arith, closed-quiet t.status status closed), rw closed refl)
  | inr is_open ↦ elim (Bool-cases (status_eq t.status status)) [
    | inl e ↦ rw (is_open, e) (inr (refl, refl))
    | inr e ↦ elim (Bool-cases (can_transition t.status status no_context)) [
      | inr c ↦ rw (is_open, e, c) (inr (refl, refl))
      | inl c ↦ elim (Bool-cases (any_where (job_by_key (hint_key t.id status)) db.jobs)) [
        | inl k ↦ rw (is_open, e, c, k) (inr (refl, refl))
        | inr k ↦
            rw (is_open, e, c, k)
              (inl (refl, (callback_job env t status, refl, (refl, refl, refl, refl, refl))))
      ]
    ]
  ]
]

receive-keeps :
    (env : Env) (t : Transaction) (status : TransferStatus) (db : Db)
    → let (r, db') = receive env t status db in (r ≡ ok (not_applied t)) × SameMoney db db'
unfolding receive note_callback ask_for_recheck upsert_job ◌>>=◌
receive-keeps env t status db = ground arith

receive-hints :
    (env : Env) (t : Transaction) (status : TransferStatus) (db : Db)
    → let (r, db') = receive env t status db in
      (r ≡ ok (not_applied t)) × SameMoney db db' × Asks t status db.jobs db'.jobs
receive-hints env t status db =
    let (r, same) = receive-keeps env t status db in (r, same, receive-Asks env t status db)

-- How a callback ends: an unknown reference throws, a known one is never applied.
abbrev pub Heard : Env → WebhookInput → Db → Option Transaction → Result WebhookResult × Db → Type 0
Heard env input db none r = r ≡ (err (domain partner_callback_unknown), db)
Heard env input db (some t) (r, db') =
    (r ≡ ok (not_applied t))
    × Asks t (map_status env input.provider_status t.status) db.jobs db'.jobs

module _ (env : Env) (protected : Bool) (input : WebhookInput) (db : Db) where
  abbrev found : Option Transaction
  found =
      find_where
        (refers_to input.partner_reference (webhook_index env protected input.partner_reference))
        db.transactions

  hints-go :
      (o : Option Transaction)
      → found ≡ o
      → SameMoney db (apply_webhook env protected input db).1
        × Heard env input db o (apply_webhook env protected input db)
  unfolding apply_webhook ◌>>=◌
  hints-go none e = rw e ((refl, refl, refl, refl), refl)
  hints-go (some t) e =
      let (r, same, jobs) =
        receive-hints env t (map_status env input.provider_status t.status) db in
      rw e (same, (r, jobs))

  -- A callback of the partner changes no transfer, no ledger entry, no reconciliation and no
  -- session. If no transfer has its reference or its blind index, it throws and writes nothing.
  -- Otherwise it is reported as not applied, and adds one job, a pending status recheck of that
  -- transfer, when the partner reports another status, which the lifecycle allows next, for the
  -- first time; and no job when it does not.
  pub apply_webhook-hints :
      SameMoney db (apply_webhook env protected input db).1
      × Heard env input db found (apply_webhook env protected input db)
  apply_webhook-hints = hints-go found refl
