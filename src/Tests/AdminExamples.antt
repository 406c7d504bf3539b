-- ===== src/Tests/AdminExamples.antt =====
-- The administration and its alerts, at concrete inputs.
use zongo_v.Prelude.{
  str_eq, ltb, ◌+◌, ◌*◌, ◌^◌, ◌≡◌, refl, true, false, ◌||◌, none, some, [], ◌∷◌, leb, is_some,
  if◌then◌else◌,
}
use zongo_v.Db.Rows.{
  AlertDelivery, AdminSession, DeliveryStatus, Severity, PlatformIdentity, AdminRole, PilotControl,
  ControlKey, paused, Db,
}
use zongo_v.Admin.Logins.{Credentials, revoke_session, actor_from_session}
use zongo_v.Admin.Sessions.{revoke_session-final}
use zongo_v.Db.Monad.{err, unauthorized, plain, ok, ◌>>=◌}
use zongo_v.Transfer.Initiate.{Initiation, initiate, new_transfer}
use zongo_v.Alerts.Outbox.{is_open, fail_delivery}
use zongo_v.Alerts.Retries.{row_of, fail_delivery-reopens}
use zongo_v.Admin.Actors.{require_actor, identity_with, admit_actor, record_sensitive}
use zongo_v.Admin.Controls.{AdminConfig, new_control, set_pilot_control, write_control}
use zongo_v.Admin.Commands.{Command, execute}
use zongo_v.Admin.Guards.{Refuses, execute-Refuses}
use zongo_v.Admin.Switches.{IsSwitch, set_pilot_control-IsSwitch}
use zongo_v.Admin.Halts.{switched_off-refuses}
use zongo_v.Tests.Data.{test_env, later_env, test_db, test_input, sender}

abbrev alert : AlertDelivery
alert = record {
  id = "a1";
  action_name = "pilot.exposure.urgent";
  severity = Severity.urgent;
  status = DeliveryStatus.failed;
  attempts = 4;
  next_attempt_at = some 99000000;
  last_error = some "down";
  delivered_at = none;
  acknowledged_at = none;
  acknowledged_by = none;
  escalated_at = none;
  escalated_by = none;
  created_at = 98000000;
}

abbrev alert_db : Db
alert_db = record test_db { alert_deliveries = alert ∷ [] }

fail_delivery-reopens_example :
    (row : AlertDelivery) × (row_of "a1" (fail_delivery test_env (plain "down") alert alert_db).1
      ≡ some row)
    × (row.attempts ≡ 5)
    × (is_open 100000001 row ≡ (if ltb 5 5 then leb (100000000 + 1000 * 2 ^ 5) 100000001 else true))
    × (ltb 5 5 || is_some row.escalated_at ≡ true)
fail_delivery-reopens_example =
    fail_delivery-reopens test_env (plain "down") alert alert_db refl 100000001

abbrev config : AdminConfig
config = record { pilot_operator = some "i1"; engineering_lead = none; is_published = λ db. false }

execute-Refuses_example : Refuses (execute test_env config "x" (Command.reconcile "ZNG-1")) test_db
execute-Refuses_example =
    execute-Refuses test_env config "x" test_db (Command.reconcile "ZNG-1") refl

abbrev operator : PlatformIdentity
operator = record {
  id = "i1";
  user_id = "u9";
  role = AdminRole.ops;
  totp_secret = none;
  mfa_verified_at = some 99000000;
  blocked_at = none;
  blocked_by = none;
  blocked_reason = none;
  break_glass_used_at = none;
}

abbrev staffed_db : Db
staffed_db = record test_db { identities = operator ∷ [] }

abbrev halted_db : Db
halted_db =
    (set_pilot_control test_env config "i1" ControlKey.initiation paused "incident" staffed_db).1

abbrev halt : PilotControl
halt = new_control ControlKey.initiation paused "incident" "i1"

halt-Done :
    set_pilot_control test_env config "i1" ControlKey.initiation paused "incident" staffed_db
    ≡ (ok halt, halted_db)
unfolding set_pilot_control require_actor identity_with admit_actor write_control record_sensitive
    ◌>>=◌
halt-Done = refl

set_pilot_control-IsSwitch_example :
    IsSwitch test_env config "i1" ControlKey.initiation paused "incident" staffed_db halted_db
set_pilot_control-IsSwitch_example =
    set_pilot_control-IsSwitch test_env config "i1" ControlKey.initiation paused "incident"
      staffed_db halt-Done

-- The staff pauses new transfers after one was stored.
abbrev stored_db : Db
stored_db = record staffed_db { transactions = new_transfer test_env test_input sender ∷ [] }

abbrev closed_db : Db
closed_db =
    (set_pilot_control test_env config "i1" ControlKey.initiation paused "incident" stored_db).1

closing-Done :
    set_pilot_control test_env config "i1" ControlKey.initiation paused "incident" stored_db
    ≡ (ok halt, closed_db)
unfolding set_pilot_control require_actor identity_with admit_actor write_control record_sensitive
    ◌>>=◌
closing-Done = refl

abbrev repeated : Initiation
repeated = record { duplicate = true; accepted = new_transfer test_env test_input sender }

closed_db-replays : initiate later_env test_input closed_db ≡ (ok repeated, closed_db)
unfolding initiate set_pilot_control require_actor identity_with admit_actor write_control
    record_sensitive ◌>>=◌
closed_db-replays = refl

switched_off-refuses_example : repeated.duplicate ≡ true
switched_off-refuses_example =
    switched_off-refuses test_env config "i1" ControlKey.initiation paused "incident" stored_db
      closing-Done refl refl later_env test_input repeated closed_db closed_db-replays

abbrev credentials : Credentials
credentials = record {
  hash = λ text. text;
  new_token = "fresh";
  verify_totp = λ secret code. str_eq secret code;
  break_glass_secret = none;
}

abbrev open_door : AdminSession
open_door = record {
  id = "as1";
  identity_id = "i1";
  token_hash = "token";
  expires_at = 200000000;
  revoked_at = none;
  revocation_reason = none;
  last_used_at = none;
  source = "TOTP";
}

abbrev revoked_db : Db
revoked_db =
    (revoke_session test_env credentials "token" "logout"
      (record staffed_db { admin_sessions = open_door ∷ [] })).1

revoke_session-final_example :
    actor_from_session later_env credentials "token" revoked_db ≡ (err unauthorized, revoked_db)
revoke_session-final_example =
    revoke_session-final test_env later_env credentials "token" "logout"
      (record staffed_db { admin_sessions = open_door ∷ [] })
