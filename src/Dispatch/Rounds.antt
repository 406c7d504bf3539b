-- ===== src/Dispatch/Rounds.antt =====
-- How a round of zongo/apps/worker/src/durable-job-dispatcher.service.ts ends.
use zongo_v.Prelude.{
  ℕ, ◌+◌, ◌≡◌, ◌⊎◌, inl, inr, refl, Bool, true, false, leb, arith, Bool-cases, if◌then◌else◌,
}
use zongo_v.Db.Rows.{Db}
use zongo_v.Db.Env.{Env}
use zongo_v.Db.Monad.{Result, ok, err, ⊤, when}
use zongo_v.Exposure.Monitor.{evaluate}
use zongo_v.Dispatch.Sweep.{
  Dispatcher, Answer, answers, query_throws, write_throws, sweep_statuses, sweep_reconciliation,
}
use zongo_v.Dispatch.Loop.{
  Wiring, dispatch, after_monitor, after_statuses, after_reconciliation, idle, sweep_and_run,
}

-- The time of the last sweep: a due one whose query is answered sets it to now.
abbrev pub swept_at : Answer → ℕ → ℕ → ℕ → ℕ
swept_at query_throws last interval now = last
swept_at answers last interval now = if leb (last + interval) now then now else last
swept_at write_throws last interval now = if leb (last + interval) now then now else last

-- A due sweep throws where the database does not answer it.
abbrev pub sweep_throws : Answer → ℕ → ℕ → ℕ → Bool
sweep_throws answers last interval now = false
sweep_throws query_throws last interval now = leb (last + interval) now
sweep_throws write_throws last interval now = leb (last + interval) now

-- The times of the sweeps after them.
abbrev pub Swept : Env → Answer → Answer → Dispatcher → Dispatcher → Type 0
Swept env first second d d' =
    let last = d.last_reconciliation_sweep in
    let interval = env.reconciliation_interval_ms in
    (d'.last_reconciliation_sweep ≡ swept_at first last interval env.now)
    × (d'.last_status_sweep ≡ (
        if sweep_throws first last interval env.now
        then d.last_status_sweep
        else swept_at second d.last_status_sweep env.recheck_interval_ms env.now))

-- The times of the sweeps, by how the monitor ended.
abbrev pub Paced : Env → Wiring → Result ⊤ → Dispatcher → Dispatcher → Type 0
Paced env wiring (err e) d d' =
    (d'.last_reconciliation_sweep ≡ d.last_reconciliation_sweep)
    × (d'.last_status_sweep ≡ d.last_status_sweep)
Paced env wiring (ok _) d d' = Swept env wiring.reconciliation_answer wiring.status_answer d d'

statuses-time :
    (env : Env) (wiring : Wiring) (reconciled : Bool) (answer : Answer) (d : Dispatcher) (db : Db)
    → let d' =
        (after_statuses env wiring reconciled (sweep_statuses env wiring.order answer d db)).0 in
      (d'.last_reconciliation_sweep ≡ d.last_reconciliation_sweep)
      × (d'.last_status_sweep ≡ swept_at answer d.last_status_sweep env.recheck_interval_ms env.now)
unfolding sweep_statuses
statuses-time env wiring reconciled answers d db = ground arith
statuses-time env wiring reconciled query_throws d db = ground arith
statuses-time env wiring reconciled write_throws d db = ground arith

reconciliation-Swept :
    (env : Env) (wiring : Wiring) (first : Answer) (d : Dispatcher) (db : Db)
    → Swept env first wiring.status_answer d
        (after_reconciliation env wiring (sweep_reconciliation env wiring.order first d db)).0
unfolding sweep_reconciliation
reconciliation-Swept env wiring answers d db =
    elim (Bool-cases (leb (d.last_reconciliation_sweep + env.reconciliation_interval_ms) env.now)) [
      | inl e ↦ rw e (statuses-time env wiring true wiring.status_answer _ _)
      | inr e ↦ rw e (statuses-time env wiring false wiring.status_answer d db)
    ]
reconciliation-Swept env wiring query_throws d db =
    elim (Bool-cases (leb (d.last_reconciliation_sweep + env.reconciliation_interval_ms) env.now)) [
      | inl e ↦ rw e (refl, refl)
      | inr e ↦ rw e (statuses-time env wiring false wiring.status_answer d db)
    ]
reconciliation-Swept env wiring write_throws d db =
    elim (Bool-cases (leb (d.last_reconciliation_sweep + env.reconciliation_interval_ms) env.now)) [
      | inl e ↦ rw e (refl, refl)
      | inr e ↦ rw e (statuses-time env wiring false wiring.status_answer d db)
    ]

module _ (env : Env) (wiring : Wiring) where
  round-Paced :
      (d : Dispatcher) (r : Result ⊤ × Db)
      → Paced env wiring r.0 d (idle (after_monitor env wiring (record d { running = true }) r)).0
  unfolding sweep_and_run
  round-Paced d (ok tt, db) =
      reconciliation-Swept env wiring wiring.reconciliation_answer (record d { running = true }) db
  round-Paced d (err e, db) = (refl, refl)

  -- A round that finds the dispatcher busy changes neither it nor the database. Any other ends,
  -- whatever fails in it, with the dispatcher free. If the exposure monitor throws, the times of the
  -- two sweeps stay. Otherwise the time of a sweep becomes now if the interval since then is over and
  -- its query is answered, and stays if not; but if the first sweep throws, the second does not start.
  pub dispatch-Paced :
      (d : Dispatcher) (db : Db)
      → let (d', db') = dispatch env wiring d db in
        ((d.running ≡ true) × (d' ≡ d) × (db' ≡ db))
        ⊎ ((d.running ≡ false)
            × (d'.running ≡ false)
            × Paced env wiring (when wiring.monitored (evaluate env) db).0 d d')
  unfolding dispatch
  dispatch-Paced d db = elim (Bool-cases d.running) [
    | inl e ↦ simp e (inl (refl, refl, refl))
    | inr e ↦ simp e (inr (refl, refl, round-Paced d (when wiring.monitored (evaluate env) db)))
  ]
