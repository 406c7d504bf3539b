-- ===== src/Admin/Actors.antt =====
-- Who may act, and what an action leaves in the audit log (zongo/apps/admin/src/admin.service.ts and
-- admin-alert.service.ts).
use zongo_v.Prelude.{
  Bool, not, none, some, [], ◌∷◌, ◌++◌, String, find_where, ltb, str_eq, is_some, template,
}
use zongo_v.Db.Rows.{
  PlatformIdentity, AdminRole, rank, AlertDelivery, DeliveryStatus, Severity, business,
}
use zongo_v.Db.Env.{Env}
use zongo_v.Db.Monad.{
  forbidden, unauthorized, not_found, Action, ⊤, pure, gets, or_throw, modify, throw_if, ◌>>=◌,
  ◌>>◌,
}
use zongo_v.Ledger.Posting.{append_audit}

abbrev pub is_identity : String → PlatformIdentity → Bool
is_identity id i = str_eq i.id id

unfoldable pub identity_with : String → Action PlatformIdentity
identity_with id = do
  found ← gets (λ db. find_where (is_identity id) db.identities)
  or_throw found not_found

-- The checks of `requireActor`.
unfoldable pub admit_actor : AdminRole → PlatformIdentity → Action PlatformIdentity
admit_actor required actor = do
  throw_if (is_some actor.blocked_at) forbidden
  throw_if (not (is_some actor.mfa_verified_at)) unauthorized
  throw_if (ltb (rank actor.role) (rank required)) forbidden
  pure actor

unfoldable pub require_actor : String → AdminRole → Action PlatformIdentity
require_actor id required = do actor ← identity_with id; admit_actor required actor

-- The urgent alert of a sensitive action; its payload is not kept.
abbrev pub sensitive_alert : Env → String → AlertDelivery
sensitive_alert env name = record {
  id = env.new_id (template ("alert:" ∷ name ∷ []));
  action_name = name;
  severity = Severity.urgent;
  status = DeliveryStatus.pending;
  attempts = 0;
  next_attempt_at = some env.now;
  last_error = none;
  delivered_at = none;
  acknowledged_at = none;
  acknowledged_by = none;
  escalated_at = none;
  escalated_by = none;
  created_at = env.now;
}

-- `record` of a sensitive action.
unfoldable pub record_sensitive : Env → String → Action ⊤
record_sensitive env name = do
  append_audit business name none env.now
  modify
      (λ db. record db { alert_deliveries = db.alert_deliveries ++ sensitive_alert env name ∷ [] })
