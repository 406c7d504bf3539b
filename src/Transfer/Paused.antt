-- ===== src/Transfer/Paused.antt =====
-- What the pause of zongo/apps/worker/src/pilot-exposure-monitor.service.ts means for `initiate` of
-- zongo/libs/transfer/src/transfer-initiation.service.ts.
use zongo_v.Prelude.{
  ℕ, suc, Bool, true, false, ◌≡◌, inl, inr, some, List, [], ◌∷◌, String, arith, find_where,
  Bool-cases, if◌then◌else◌,
}
use zongo_v.Prelude.Int.{ℤ, pos, ◌≤ℤ◌}
use zongo_v.Db.Rows.{PilotControl, ControlKey, paused, permanently_stopped, Severity, Db}
use zongo_v.Db.Env.{Env}
use zongo_v.Db.Monad.{ok}
use zongo_v.Exposure.Monitor.{is_stopped, signals_for, same_severity, evaluate_metric}
use zongo_v.Exposure.Pausing.{initiation_state, urgent-pauses}
use zongo_v.Transfer.Input.{InitiateTransferInput}
use zongo_v.Transfer.Checks.{enabled_in}
use zongo_v.Transfer.Initiate.{Initiation, initiate}
use zongo_v.Transfer.Guarantees.{initiate-eligible}

-- A control whose row is paused or stopped is not enabled.
halted-not_enabled :
    (rows : List PilotControl) (b : Bool)
    → initiation_state rows ≡ (if b then some permanently_stopped else some paused)
    → enabled_in rows ControlKey.initiation ≡ false
halted-not_enabled [] b h = ground arith
halted-not_enabled (c ∷ rows) b h = ground (arith, halted-not_enabled rows b)

-- Where a metric is evaluated at or over its positive limit, and its signal was not yet urgent, no
-- call creates a new transfer in the database that this leaves: a call that returns then returns a
-- stored transfer as a duplicate.
pub urgent-refuses :
    (env : Env) (key : String) (observed : ℤ) (n : ℕ) (db : Db) (later : Env)
    (input : InitiateTransferInput) (r : Initiation) (db' : Db)
    → pos (suc n) ≤ℤ observed
    → same_severity Severity.urgent (find_where (signals_for key) db.signals) ≡ false
    → initiate later input
        (evaluate_metric env
          (record { key = key; observed = observed; limit = some (pos (suc n)) })
          db).1
      ≡ (ok r, db')
    → r.duplicate ≡ true
urgent-refuses env key observed n db later input r db' over fresh returned =
    elim (Bool-cases r.duplicate) [
      | inl e ↦ e
      | inr new ↦
          let paused_db : Db =
            (evaluate_metric env
              (record { key = key; observed = observed; limit = some (pos (suc n)) }) db).1 in
          let (_, _, _, _, _, _, _, _, _, _, on, _) =
            initiate-eligible later input paused_db r db' returned new in
          let off =
            halted-not_enabled paused_db.controls (is_stopped (initiation_state db.controls))
              (urgent-pauses env key observed n db over fresh) in
          absurd (ground arith)
    ]
