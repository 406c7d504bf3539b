-- ===== src/Admin/Halts.antt =====
-- What a control of zongo/apps/admin/src/admin.service.ts that is off means for `initiate` of
-- zongo/libs/transfer/src/transfer-initiation.service.ts.
use zongo_v.Prelude.{
  ◌≡◌, inl, inr, true, false, some, List, [], ◌∷◌, String, arith, find_where, any_where, Bool-cases,
}
use zongo_v.Db.Rows.{PilotControl, ControlKey, ControlState, control_key_eq, is_enabled, Db}
use zongo_v.Db.Env.{Env}
use zongo_v.Db.Monad.{ok}
use zongo_v.Exposure.Monitor.{is_control, state_of}
use zongo_v.Transfer.Input.{InitiateTransferInput}
use zongo_v.Transfer.Checks.{required_keys, enabled_in}
use zongo_v.Transfer.Initiate.{Initiation, initiate}
use zongo_v.Transfer.Guarantees.{initiate-eligible}
use zongo_v.Admin.Controls.{AdminConfig, set_pilot_control}
use zongo_v.Admin.Switches.{set_pilot_control-IsSwitch}

off-not_enabled :
    (key : ControlKey) (state : ControlState) (rows : List PilotControl)
    → state_of (find_where (is_control key) rows) ≡ some state
    → is_enabled state ≡ false
    → enabled_in rows key ≡ false
off-not_enabled key state [] h off = absurd (ground arith)
off-not_enabled key state (c ∷ rows) h off = ground (arith, off-not_enabled key state rows)

needed-enabled :
    (key : ControlKey) (rows : List PilotControl)
    → any_where (control_key_eq key) required_keys ≡ true
    → enabled_in rows ControlKey.global ≡ true
    → enabled_in rows ControlKey.initiation ≡ true
    → enabled_in rows ControlKey.corridor_provider ≡ true
    → enabled_in rows key ≡ true
needed-enabled ControlKey.global rows h g i c = g
needed-enabled ControlKey.initiation rows h g i c = i
needed-enabled ControlKey.corridor_provider rows h g i c = c
needed-enabled ControlKey.collection rows h g i c = absurd (ground arith)
needed-enabled ControlKey.payout rows h g i c = absurd (ground arith)
needed-enabled ControlKey.notification rows h g i c = absurd (ground arith)

module _ (env : Env) (config : AdminConfig) (actor_id : String) (key : ControlKey)
    (state : ControlState) (reason : String) (db : Db) {c : PilotControl} {db' : Db} where
  -- Once the staff paused or stopped one of the three controls that a new transfer needs, no call
  -- creates a transfer in the database that this leaves: one that returns answers with a stored
  -- transfer.
  pub switched_off-refuses :
      set_pilot_control env config actor_id key state reason db ≡ (ok c, db')
      → is_enabled state ≡ false
      → any_where (control_key_eq key) required_keys ≡ true
      → (later : Env) (input : InitiateTransferInput) (r : Initiation) (db'' : Db)
      → initiate later input db' ≡ (ok r, db'')
      → r.duplicate ≡ true
  switched_off-refuses h off needed later input r db'' returned = elim (Bool-cases r.duplicate) [
    | inl e ↦ e
    | inr new ↦
        let switch = set_pilot_control-IsSwitch env config actor_id key state reason db h in
        let (_, _, _, _, _, _, _, _, _, g, i, p) =
          initiate-eligible later input db' r db'' returned new in
        let on = needed-enabled key db'.controls needed g i p in
        let is_off = off-not_enabled key state db'.controls switch.in_force off in
        absurd (cc (on, is_off))
  ]
