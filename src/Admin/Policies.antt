-- ===== src/Admin/Policies.antt =====
-- The users, limits and policies under the hands of the administration
-- (zongo/apps/admin/src/admin.service.ts).
-- The services that the class takes as optional are there.
use zongo_v.Prelude.{
  ℕ, Bool, true, false, not, Option, none, some, List, [], ◌∷◌, ◌++◌, String, any_where,
  update_where, str_eq, get_or, if◌then◌else◌,
}
use zongo_v.Prelude.Int.{ℤ}
use zongo_v.Db.Rows.{PlatformIdentity, AdminRole, SenderProfile, ExposurePolicy, tier_1}
use zongo_v.Db.Env.{Env}
use zongo_v.Db.Monad.{forbidden, plain, Action, ⊤, pure, gets, modify, throw_if, ◌>>=◌, ◌>>◌}
use zongo_v.Profile.Accounts.{has_id, set_global_tier_limits}
use zongo_v.Profile.Review.{Decision, approve_verification, resolve_verification}
use zongo_v.Admin.Actors.{require_actor, record_sensitive}

abbrev pub is_user : String → PlatformIdentity → Bool
is_user user_id i = str_eq i.user_id user_id

abbrev pub block_time : Env → Bool → Option ℕ
block_time env true = some env.now
block_time env false = none

abbrev pub block_reason : Bool → Option String → Option String
block_reason true reason = some (get_or reason "Administrative action")
block_reason false reason = none

abbrev pub blocked_as : Env → String → Bool → Option String → PlatformIdentity → PlatformIdentity
blocked_as env actor_id is_blocked reason i = record i {
  blocked_at = block_time env is_blocked;
  blocked_by = some actor_id;
  blocked_reason = block_reason is_blocked reason;
}

abbrev pub new_customer : Env → String → PlatformIdentity
new_customer env user_id = record {
  id = env.new_id user_id;
  user_id = user_id;
  role = AdminRole.customer;
  totp_secret = none;
  mfa_verified_at = none;
  blocked_at = none;
  blocked_by = none;
  blocked_reason = none;
  break_glass_used_at = none;
}

-- `platformIdentity.upsert({ where: { userId } })`
abbrev pub put_block :
    Env → String → String → Bool → Option String → List PlatformIdentity → List PlatformIdentity
put_block env actor_id user_id is_blocked reason rows =
    if any_where (is_user user_id) rows
    then update_where (is_user user_id) (blocked_as env actor_id is_blocked reason) rows
    else rows ++ blocked_as env actor_id is_blocked reason (new_customer env user_id) ∷ []

unfoldable pub set_user_blocked : Env → String → String → Bool → Option String → Action ⊤
set_user_blocked env actor_id user_id is_blocked reason = do
  actor ← require_actor actor_id AdminRole.admin
  modify (λ db. record db {
    identities = put_block env actor.id user_id is_blocked reason db.identities;
  })
  record_sensitive env (if is_blocked then "admin.user.blocked" else "admin.user.unblocked")

unfoldable pub set_tier_1_caps : Env → String → ℤ → ℤ → Action ⊤
set_tier_1_caps env actor_id per_transfer daily = do
  actor ← require_actor actor_id AdminRole.admin
  _ ← set_global_tier_limits tier_1 per_transfer daily actor.id
  record_sensitive env "admin.policy.tier-1-caps.updated"

abbrev pub listed : Bool → SenderProfile → SenderProfile
listed is_listed p = record p { allowlist_enabled = some is_listed }

-- The profile of an entry is there, by its foreign key.
unfoldable pub set_pilot_allowlist : Env → String → String → Bool → String → Action ⊤
set_pilot_allowlist env actor_id profile_id is_listed reason = do
  throw_if (env.is_blank reason) forbidden
  _ ← require_actor actor_id AdminRole.ops
  missing ← gets (λ db. not (any_where (has_id profile_id) db.profiles))
  throw_if missing (plain "Foreign key constraint violated")
  modify (λ db. record db {
    profiles = update_where (has_id profile_id) (listed is_listed) db.profiles;
  })
  record_sensitive env
      (if is_listed then "admin.pilot-allowlist.enabled" else "admin.pilot-allowlist.disabled")

-- A field that is not given leaves the column, and null clears it.
pub record ExposurePolicyInput : Type 0 where
  pub allowlist_required : Option Bool
  pub max_pending_transfers : Option (Option ℕ)
  pub max_ambiguous_transfers : Option (Option ℕ)
  pub max_partner_settlement : Option (Option ℤ)
  pub max_recovery_capacity : Option (Option ℕ)
  pub global_daily_send : Option (Option ℤ)

abbrev pub default_policy : ExposurePolicy
default_policy = record {
  allowlist_required = true;
  max_pending_transfers = none;
  max_ambiguous_transfers = none;
  max_partner_settlement = none;
  max_recovery_capacity = none;
  global_daily_send = none;
  updated_by = none;
}

abbrev pub with_input : ExposurePolicyInput → String → ExposurePolicy → ExposurePolicy
with_input input actor_id p = record {
  allowlist_required = get_or input.allowlist_required p.allowlist_required;
  max_pending_transfers = get_or input.max_pending_transfers p.max_pending_transfers;
  max_ambiguous_transfers = get_or input.max_ambiguous_transfers p.max_ambiguous_transfers;
  max_partner_settlement = get_or input.max_partner_settlement p.max_partner_settlement;
  max_recovery_capacity = get_or input.max_recovery_capacity p.max_recovery_capacity;
  global_daily_send = get_or input.global_daily_send p.global_daily_send;
  updated_by = some actor_id;
}

unfoldable pub set_exposure_policy : Env → String → ExposurePolicyInput → Action ⊤
set_exposure_policy env actor_id input = do
  actor ← require_actor actor_id AdminRole.ops
  modify (λ db. record db {
    exposure_policy = some (with_input input actor.id (get_or db.exposure_policy default_policy));
  })
  record_sensitive env "admin.pilot-exposure-policy.updated"

-- The decision of a review: an approval, or one that ends the case.
pub data ReviewDecision : Type 0 where
  approval : ReviewDecision
  ending : Decision → ReviewDecision

abbrev pub review_name : ReviewDecision → String
review_name ReviewDecision.approval = "admin.verification.approved"
review_name (ReviewDecision.ending Decision.rejected) = "admin.verification.rejected"
review_name (ReviewDecision.ending Decision.escalated) = "admin.verification.escalated"

abbrev pub decide : Env → String → String → String → ReviewDecision → Action ⊤
decide env reviewer id reason ReviewDecision.approval = do
  _ ←
      approve_verification env
        (record { verification_id = id; reviewer = reviewer; decision_reason = reason })
  pure tt
decide env reviewer id reason (ReviewDecision.ending d) = do
  _ ←
      resolve_verification env (record {
        verification_id = id;
        reviewer = reviewer;
        decision = d;
        decision_reason = reason;
      })
  pure tt

unfoldable pub review_verification : Env → String → String → ReviewDecision → String → Action ⊤
review_verification env actor_id id decision reason = do
  actor ← require_actor actor_id AdminRole.ops
  decide env actor.id id reason decision
  record_sensitive env (review_name decision)
