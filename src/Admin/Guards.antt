-- ===== src/Admin/Guards.antt =====
-- Who gets past the guards of zongo/apps/admin/src/admin.service.ts, and what a control then does.
use zongo_v.Prelude.{
  ◌≡◌, refl, inl, inr, Bool, true, false, not, ◌&&◌, Option, none, some, String, find_where, ltb,
  is_some, Bool-cases, arith,
}
use zongo_v.Db.Rows.{PlatformIdentity, AdminRole, rank, Db}
use zongo_v.Db.Env.{Env}
use zongo_v.Db.Monad.{
  Thrown, forbidden, unauthorized, not_found, err, Action, throw_if, ◌>>=◌, ◌>>◌,
}
use zongo_v.Admin.Actors.{is_identity, identity_with, admit_actor, require_actor}
use zongo_v.Admin.Controls.{AdminConfig, set_pilot_control, isolate_provider_movement}
use zongo_v.Admin.Handling.{
  acknowledge_alert, escalate_alert, recheck_transfer, queue_reconciliation, retry_failed_payout,
}
use zongo_v.Admin.Policies.{
  set_user_blocked, set_tier_1_caps, set_pilot_allowlist, set_exposure_policy, review_verification,
}
use zongo_v.Admin.Commands.{Command, required_role, execute}

-- An identity that is not blocked, whose second factor was verified, and whose role is enough.
abbrev pub is_admitted : AdminRole → PlatformIdentity → Bool
is_admitted required i =
    not (is_some i.blocked_at)
    && is_some i.mfa_verified_at
    && not (ltb (rank i.role) (rank required))

abbrev pub is_actor : AdminRole → Option PlatformIdentity → Bool
is_actor required none = false
is_actor required (some i) = is_admitted required i

-- The call throws and leaves the database as it was.
abbrev pub Refuses : {A : Type 0} → Action A → Db → Type 0
Refuses {A} m db = (e : Thrown) × (m db ≡ (err e, db))

module _ (actor_id : String) (db : Db) where
  abbrev found : Option PlatformIdentity
  found = find_where (is_identity actor_id) db.identities

  admit-Refuses :
      (required : AdminRole) (i : PlatformIdentity)
      → is_admitted required i ≡ false
      → Refuses (admit_actor required i) db
  unfolding admit_actor ◌>>=◌
  admit-Refuses required i h = elim (Bool-cases (is_some i.blocked_at)) [
    | inl a ↦ (forbidden, rw a refl)
    | inr a ↦ elim (Bool-cases (is_some i.mfa_verified_at)) [
      | inl b ↦ (forbidden, ground (arith, a, b, h))
      | inr b ↦ (unauthorized, rw (a, b) refl)
    ]
  ]

  actor-go :
      (required : AdminRole) (o : Option PlatformIdentity)
      → found ≡ o
      → is_actor required o ≡ false
      → Refuses (require_actor actor_id required) db
  unfolding require_actor identity_with ◌>>=◌
  actor-go required none e h = (not_found, rw e refl)
  actor-go required (some i) e h =
      let (thrown, refused) = admit-Refuses required i h in (thrown, rw e refused)

  actor-Refuses :
      (required : AdminRole)
      → is_actor required found ≡ false
      → Refuses (require_actor actor_id required) db
  actor-Refuses required h = actor-go required found refl h

-- What follows a call that is refused is not reached.
bind-Refuses :
    {A B : Type 0} (m : Action A) (k : A → Action B) (db : Db) → Refuses m db → Refuses (m >>= k) db
unfolding ◌>>=◌
bind-Refuses m k db (e, h) = (e, rw h refl)

guard-Refuses :
    {B : Type 0} (c : Bool) (e : Thrown) (k : Action B) (db : Db)
    → Refuses k db
    → Refuses (throw_if c e >> k) db
unfolding ◌>>=◌
guard-Refuses true e k db h = (e, refl)
guard-Refuses false e k db h = h

module _ (env : Env) (config : AdminConfig) (actor_id : String) (db : Db) where
  -- A command of somebody who is unknown, blocked, without a verified second factor or below the
  -- role that it needs throws, and leaves the database as it was.
  pub execute-Refuses :
      (command : Command)
      → is_actor (required_role command) (find_where (is_identity actor_id) db.identities) ≡ false
      → Refuses (execute env config actor_id command) db
  unfolding set_pilot_control isolate_provider_movement acknowledge_alert escalate_alert
      recheck_transfer queue_reconciliation retry_failed_payout set_user_blocked set_tier_1_caps
      set_pilot_allowlist set_exposure_policy review_verification
  execute-Refuses (Command.control key state reason) h =
      bind-Refuses _ _ db (
        guard-Refuses _ _ _ db
          (bind-Refuses _ _ db (actor-Refuses actor_id db AdminRole.support h)))
  execute-Refuses (Command.isolate reason) h =
      bind-Refuses _ _ db (
        guard-Refuses _ _ _ db
          (bind-Refuses _ _ db (actor-Refuses actor_id db AdminRole.support h)))
  execute-Refuses (Command.acknowledge id reason) h =
      bind-Refuses _ _ db (bind-Refuses _ _ db (actor-Refuses actor_id db AdminRole.ops h))
  execute-Refuses (Command.escalate id reason) h =
      bind-Refuses _ _ db (bind-Refuses _ _ db (actor-Refuses actor_id db AdminRole.ops h))
  execute-Refuses (Command.recheck reference key) h =
      bind-Refuses _ _ db (bind-Refuses _ _ db (actor-Refuses actor_id db AdminRole.ops h))
  execute-Refuses (Command.reconcile reference) h =
      bind-Refuses _ _ db (actor-Refuses actor_id db AdminRole.ops h)
  execute-Refuses (Command.retry reference corrected) h =
      bind-Refuses _ _ db (bind-Refuses _ _ db (actor-Refuses actor_id db AdminRole.ops h))
  execute-Refuses (Command.block user is_blocked reason) h =
      bind-Refuses _ _ db (actor-Refuses actor_id db AdminRole.admin h)
  execute-Refuses (Command.caps per_transfer daily) h =
      bind-Refuses _ _ db (actor-Refuses actor_id db AdminRole.admin h)
  execute-Refuses (Command.allowlist profile is_listed reason) h =
      guard-Refuses _ _ _ db (bind-Refuses _ _ db (actor-Refuses actor_id db AdminRole.ops h))
  execute-Refuses (Command.exposure input) h =
      bind-Refuses _ _ db (actor-Refuses actor_id db AdminRole.ops h)
  execute-Refuses (Command.review id decision reason) h =
      bind-Refuses _ _ db (actor-Refuses actor_id db AdminRole.ops h)
