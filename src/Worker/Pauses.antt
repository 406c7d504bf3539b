-- ===== src/Worker/Pauses.antt =====
-- Paused money movement: the controls in `process` of
-- zongo/apps/worker/src/worker-job.processor.ts.
use zongo_v.Prelude.{
  Bool, true, false, not, Option, none, some, List, [], ◌∷◌, String, ◌≡◌, refl, any_where,
  update_where, find_where, select_where, find_where-select_where, arith,
}
use zongo_v.Db.Rows.{PilotControl, ControlKey, is_enabled, Payload, JobStatus, Db}
use zongo_v.Db.Env.{Env}
use zongo_v.Db.Monad.{ok, ◌>>=◌}
use zongo_v.Ledger.Posting.{LifecycleEvent}
use zongo_v.Worker.Ports.{WorkerJobInput, WorkerJobResult, Services}
use zongo_v.Worker.Store.{job_by_id, update_job, postponed_job}
use zongo_v.Transfer.Checks.{enabled_in, is_on, is_control}
use zongo_v.Worker.Controls.{
  money_paused, postpone_money, is_unavailable, has_key_in, has_key, control_keys, leg_key,
  manual_payout,
}
use zongo_v.Worker.Leg.{kind_of}
use zongo_v.Worker.Process.{run_money, run_claimed}

money_paused-waits :
    (env : Env) (services other : Services) (leg : LifecycleEvent) (id : String)
    (job : WorkerJobInput) (db : Db)
    → job.kind ≡ kind_of leg
    → money_paused leg job.payload db.controls ≡ true
    → any_where (job_by_id id) db.jobs ≡ true
    → let (r, db') = run_claimed env services job id db in
      (r ≡ ok WorkerJobResult.failed)
      × (db'.jobs
          ≡ update_where
              (job_by_id id)
              (postponed_job "Pilot money movement is paused by operational control")
              db.jobs)
      × (db'.transactions ≡ db.transactions)
      × (db'.ledger_entries ≡ db.ledger_entries)
      × (run_claimed env other job id db ≡ (r, db'))
unfolding run_claimed run_money postpone_money update_job ◌>>=◌
money_paused-waits env services other LifecycleEvent.collection id job db e h k =
    rw (e, h, k) (refl, refl, refl, refl, refl)
money_paused-waits env services other LifecycleEvent.payout id job db e h k =
    rw (e, h, k) (refl, refl, refl, refl, refl)

-- The controls that have to be enabled for a job: a manual payout retry asks for that of the
-- provider alone.
abbrev pub gates : LifecycleEvent → Payload → List ControlKey
gates LifecycleEvent.collection payload =
    ControlKey.global ∷ ControlKey.corridor_provider ∷ ControlKey.collection ∷ []
gates LifecycleEvent.payout (Payload.manual id corrected) = ControlKey.corridor_provider ∷ []
gates LifecycleEvent.payout Payload.manual_flag = ControlKey.corridor_provider ∷ []
gates LifecycleEvent.payout payload =
    ControlKey.global ∷ ControlKey.corridor_provider ∷ ControlKey.payout ∷ []

-- One of the controls has no row or is not enabled.
abbrev pub is_gated : List PilotControl → List ControlKey → Bool
is_gated controls keys = any_where (λ key. not (enabled_in controls key)) keys

unavailable-off :
    (o : Option PilotControl)
    → elim o [ none ↦ true | some c ↦ not (is_enabled c.state) ] ≡ not (is_on o)
unavailable-off none = refl
unavailable-off (some c) = refl

-- A control among those that are read is seen as it is.
unavailable-seen :
    (keys : List ControlKey) (key : ControlKey) (rows : List PilotControl)
    → ((c : PilotControl) → has_key key c ≡ true → has_key_in keys c ≡ true)
    → is_unavailable (select_where (has_key_in keys) rows) key ≡ not (enabled_in rows key)
unavailable-seen keys key rows sub =
    rw (is_unavailable, find_where-select_where (has_key key) (has_key_in keys) rows sub)
      (unavailable-off (find_where (is_control key) rows))

module _ (leg : LifecycleEvent) (rows : List PilotControl) where
  abbrev Seen : ControlKey → Type 0
  Seen key =
      is_unavailable (select_where (has_key_in (control_keys leg)) rows) key
      ≡ not (enabled_in rows key)

  global-Seen : Seen ControlKey.global
  global-Seen =
      unavailable-seen (control_keys leg) ControlKey.global rows (λ c e. ground (arith, e))

  provider-Seen : Seen ControlKey.corridor_provider
  provider-Seen =
      unavailable-seen (control_keys leg) ControlKey.corridor_provider rows
        (λ c e. ground (arith, e))

  leg-Seen : Seen (leg_key leg)
  leg-Seen = unavailable-seen (control_keys leg) (leg_key leg) rows (λ c e. ground (arith, e))

  -- The controls of a job that runs by itself, and of a manual retry.
  automatic-paused :
      (payload : Payload)
      → manual_payout leg payload ≡ false
      → is_gated rows (control_keys leg) ≡ true
      → money_paused leg payload rows ≡ true
  unfolding money_paused
  automatic-paused payload m h = rw (m, global-Seen, provider-Seen, leg-Seen) (ground (arith, h))

  manual-paused :
      (payload : Payload)
      → manual_payout leg payload ≡ true
      → is_gated rows (ControlKey.corridor_provider ∷ []) ≡ true
      → money_paused leg payload rows ≡ true
  unfolding money_paused
  manual-paused payload m h = rw (m, provider-Seen) (ground (arith, h))

gated-paused :
    (leg : LifecycleEvent) (payload : Payload) (rows : List PilotControl)
    → is_gated rows (gates leg payload) ≡ true
    → money_paused leg payload rows ≡ true
gated-paused LifecycleEvent.collection payload rows h =
    automatic-paused LifecycleEvent.collection rows payload refl h
gated-paused LifecycleEvent.payout (Payload.manual id corrected) rows h =
    manual-paused LifecycleEvent.payout rows (Payload.manual id corrected) refl h
gated-paused LifecycleEvent.payout Payload.manual_flag rows h =
    manual-paused LifecycleEvent.payout rows Payload.manual_flag refl h
gated-paused LifecycleEvent.payout (Payload.reference r) rows h =
    automatic-paused LifecycleEvent.payout rows (Payload.reference r) refl h
gated-paused LifecycleEvent.payout (Payload.reason r) rows h =
    automatic-paused LifecycleEvent.payout rows (Payload.reason r) refl h
gated-paused LifecycleEvent.payout (Payload.callback r s) rows h =
    automatic-paused LifecycleEvent.payout rows (Payload.callback r s) refl h
gated-paused LifecycleEvent.payout (Payload.sweep r bucket) rows h =
    automatic-paused LifecycleEvent.payout rows (Payload.sweep r bucket) refl h
gated-paused LifecycleEvent.payout (Payload.intent id) rows h =
    automatic-paused LifecycleEvent.payout rows (Payload.intent id) refl h
gated-paused LifecycleEvent.payout (Payload.requested_by id) rows h =
    automatic-paused LifecycleEvent.payout rows (Payload.requested_by id) refl h

-- A collection or payout job that is there and was claimed while one of its controls (`gates`) has
-- no row or is not enabled waits again: the call reports a failure, the job is pending with the
-- reason and without its lease, no transfer and no ledger entry changes, and what happens is the
-- same whatever the partner and the notifier would answer.
pub run_claimed-waits :
    (env : Env) (services other : Services) (leg : LifecycleEvent) (id : String)
    (job : WorkerJobInput) (db : Db)
    → job.kind ≡ kind_of leg
    → is_gated db.controls (gates leg job.payload) ≡ true
    → any_where (job_by_id id) db.jobs ≡ true
    → let (r, db') = run_claimed env services job id db in
      (r ≡ ok WorkerJobResult.failed)
      × (db'.jobs
          ≡ update_where
              (job_by_id id)
              (λ j. record j {
                status = JobStatus.pending;
                last_error = some "Pilot money movement is paused by operational control";
                lease_expires_at = none;
              })
              db.jobs)
      × (db'.transactions ≡ db.transactions)
      × (db'.ledger_entries ≡ db.ledger_entries)
      × (run_claimed env other job id db ≡ (r, db'))
run_claimed-waits env services other leg id job db e h k =
    money_paused-waits env services other leg id job db e
      (gated-paused leg job.payload db.controls h) k
