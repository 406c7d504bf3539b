-- ===== src/Admin/Controls.antt =====
-- The pilot controls of zongo/apps/admin/src/admin.service.ts. Whether the readiness evidence is
-- published (`requirePublishedPilotReadiness`) is a parameter.
use zongo_v.Prelude.{
  Bool, true, false, not, ◌&&◌, Option, some, List, [], ◌∷◌, ◌++◌, String, any_where, update_where,
  is_text, ◌==◌, if◌then◌else◌,
}
use zongo_v.Db.Rows.{
  PilotControl, ControlKey, ControlState, control_key_eq, is_enabled, enabled, paused,
  permanently_stopped, PlatformIdentity, AdminRole, rank, Db,
}
use zongo_v.Db.Env.{Env}
use zongo_v.Db.Monad.{forbidden, Action, pure, gets, modify, throw_if, ◌>>=◌, ◌>>◌}
use zongo_v.Exposure.Monitor.{is_control}
use zongo_v.Admin.Actors.{require_actor, record_sensitive}

-- The environment of the administration.
pub record AdminConfig : Type 0 where
  -- `process.env.PILOT_OPERATOR_ID`
  pub pilot_operator : Option String
  -- `process.env.ENGINEERING_LEAD_ID`
  pub engineering_lead : Option String
  -- `requirePublishedPilotReadiness` returns
  pub is_published : Db → Bool

abbrev pub movement_keys : List ControlKey
movement_keys =
    ControlKey.global ∷ ControlKey.initiation ∷ ControlKey.collection ∷ ControlKey.payout
    ∷ ControlKey.corridor_provider ∷ []

abbrev pub moves_money : ControlKey → Bool
moves_money key = any_where (control_key_eq key) movement_keys

abbrev pub is_ops : AdminRole → Bool
is_ops role = rank role == rank AdminRole.ops

abbrev pub is_final_stop : ControlState → Bool
is_final_stop permanently_stopped = true
is_final_stop enabled = false
is_final_stop paused = false

-- The actor may not set the state.
abbrev pub is_refused : AdminConfig → PlatformIdentity → ControlState → Bool
is_refused config actor state =
    if is_final_stop state
    then not (is_text config.pilot_operator actor.id)
    else not (is_text config.pilot_operator actor.id) && not (is_ops actor.role)

abbrev pub new_control : ControlKey → ControlState → String → String → PilotControl
new_control key state reason actor_id = record {
  key = key;
  state = state;
  reason = some reason;
  changed_by = some actor_id;
}

-- `pilotControl.upsert({ where: { key } })`
abbrev pub put_control : PilotControl → List PilotControl → List PilotControl
put_control c rows =
    if any_where (is_control c.key) rows
    then update_where (is_control c.key) (λ _. c) rows
    else rows ++ c ∷ []

abbrev pub control_name : ControlState → String
control_name enabled = "admin.pilot-control.enabled"
control_name paused = "admin.pilot-control.paused"
control_name permanently_stopped = "admin.pilot-control.permanently_stopped"

-- The writes of `setPilotControl`.
unfoldable pub write_control : Env → PilotControl → String → Action PilotControl
write_control env c name = do
  modify (λ db. record db { controls = put_control c db.controls })
  record_sensitive env name
  pure c

unfoldable pub set_pilot_control :
    Env → AdminConfig → String → ControlKey → ControlState → String → Action PilotControl
set_pilot_control env config actor_id key state reason = do
  throw_if (env.is_blank reason) forbidden
  actor ← require_actor actor_id AdminRole.support
  is_published ← gets config.is_published
  throw_if (is_enabled state && moves_money key && not is_published) forbidden
  throw_if (is_refused config actor state) forbidden
  write_control env (new_control key state reason actor.id) (control_name state)

unfoldable pub isolate_provider_movement : Env → AdminConfig → String → String → Action PilotControl
isolate_provider_movement env config actor_id reason = do
  throw_if (env.is_blank reason) forbidden
  actor ← require_actor actor_id AdminRole.support
  throw_if (not (is_text config.engineering_lead actor.id)) forbidden
  write_control env (new_control ControlKey.corridor_provider paused reason actor.id)
      "admin.engineering-isolation.provider-paused"
