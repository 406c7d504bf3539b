-- ===== src/Admin/Commands.antt =====
-- The guarded operations of zongo/apps/admin/src/admin.service.ts that write.
use zongo_v.Prelude.{Bool, Option, String}
use zongo_v.Prelude.Int.{ℤ}
use zongo_v.Db.Rows.{AdminRole, ControlKey, ControlState}
use zongo_v.Db.Env.{Env}
use zongo_v.Db.Monad.{Action, ⊤, pure, ◌>>=◌}
use zongo_v.Admin.Controls.{AdminConfig, set_pilot_control, isolate_provider_movement}
use zongo_v.Admin.Handling.{
  acknowledge_alert, escalate_alert, recheck_transfer, queue_reconciliation, retry_failed_payout,
}
use zongo_v.Admin.Policies.{
  ExposurePolicyInput, ReviewDecision, set_user_blocked, set_tier_1_caps, set_pilot_allowlist,
  set_exposure_policy, review_verification,
}

pub data Command : Type 0 where
  control : ControlKey → ControlState → String → Command
  isolate : String → Command
  acknowledge : String → String → Command
  escalate : String → String → Command
  recheck : String → Option String → Command
  reconcile : String → Command
  retry : String → Option String → Command
  block : String → Bool → Option String → Command
  caps : ℤ → ℤ → Command
  allowlist : String → Bool → String → Command
  exposure : ExposurePolicyInput → Command
  review : String → ReviewDecision → String → Command

-- The lowest role that may give a command.
abbrev pub required_role : Command → AdminRole
required_role (control key state reason) = AdminRole.support
required_role (isolate reason) = AdminRole.support
required_role (acknowledge id reason) = AdminRole.ops
required_role (escalate id reason) = AdminRole.ops
required_role (recheck reference key) = AdminRole.ops
required_role (reconcile reference) = AdminRole.ops
required_role (retry reference corrected) = AdminRole.ops
required_role (block user is_blocked reason) = AdminRole.admin
required_role (caps per_transfer daily) = AdminRole.admin
required_role (allowlist profile is_listed reason) = AdminRole.ops
required_role (exposure input) = AdminRole.ops
required_role (review id decision reason) = AdminRole.ops

abbrev pub ignoring : {A : Type 0} → Action A → Action ⊤
ignoring m = m >>= λ _. pure tt

abbrev pub execute : Env → AdminConfig → String → Command → Action ⊤
execute env config actor (control key state reason) =
    ignoring (set_pilot_control env config actor key state reason)
execute env config actor (isolate reason) =
    ignoring (isolate_provider_movement env config actor reason)
execute env config actor (acknowledge id reason) = ignoring (acknowledge_alert env actor id reason)
execute env config actor (escalate id reason) = ignoring (escalate_alert env actor id reason)
execute env config actor (recheck reference key) =
    ignoring (recheck_transfer env actor reference key)
execute env config actor (reconcile reference) = queue_reconciliation env actor reference
execute env config actor (retry reference corrected) =
    ignoring (retry_failed_payout env actor reference corrected)
execute env config actor (block user is_blocked reason) =
    set_user_blocked env actor user is_blocked reason
execute env config actor (caps per_transfer daily) = set_tier_1_caps env actor per_transfer daily
execute env config actor (allowlist profile is_listed reason) =
    set_pilot_allowlist env actor profile is_listed reason
execute env config actor (exposure input) = set_exposure_policy env actor input
execute env config actor (review id decision reason) =
    review_verification env actor id decision reason
