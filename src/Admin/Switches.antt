-- ===== src/Admin/Switches.antt =====
-- What setting a control does (zongo/apps/admin/src/admin.service.ts).
use text.Mathlib.TextEquality.{eq_iff}
use zongo_v.Prelude.{
  ◌≡◌, refl, ap, sym, ◌∙◌, ◌⊎◌, inl, inr, Bool, true, false, not, ◌&&◌, is_text, Option, none, some,
  List, [], ◌∷◌, ◌++◌, String, find_where, update_where, any_where, Bool-cases, arith,
}
use zongo_v.Db.Rows.{
  PlatformIdentity, AdminRole, PilotControl, ControlKey, ControlState, enabled, paused,
  permanently_stopped, is_enabled, control_key_eq, Db,
}
use zongo_v.Db.Env.{Env}
use zongo_v.Db.Monad.{ok, ◌>>=◌}
use zongo_v.Db.Inversion.{throw_if-ok, gets-ok, bind-ok}
use zongo_v.Exposure.Monitor.{is_control, state_of}
use zongo_v.Admin.Actors.{is_identity, identity_with, admit_actor, require_actor, record_sensitive}
use zongo_v.Admin.Controls.{
  AdminConfig, is_refused, is_ops, moves_money, new_control, put_control, control_name,
  write_control, set_pilot_control,
}
use zongo_v.Admin.Guards.{is_admitted}

tag_refl : (key : ControlKey) → control_key_eq key key ≡ true
tag_refl key = ground arith

put-update :
    (c : PilotControl) (rows : List PilotControl)
    → any_where (is_control c.key) rows ≡ true
    → find_where (is_control c.key) (update_where (is_control c.key) (λ _. c) rows) ≡ some c
put-update c [] h = absurd (ground arith)
put-update c (r ∷ rows) h = elim (Bool-cases (is_control c.key r)) [
  | inl e ↦ rw (e, tag_refl c.key) refl
  | inr e ↦ rw (e, e) (put-update c rows (ground arith))
]

put-append :
    (c : PilotControl) (rows : List PilotControl)
    → any_where (is_control c.key) rows ≡ false
    → find_where (is_control c.key) (rows ++ c ∷ []) ≡ some c
put-append c [] h = rw (tag_refl c.key) refl
put-append c (r ∷ rows) h = ground (arith, put-append c rows)

put-found :
    (c : PilotControl) (rows : List PilotControl)
    → find_where (is_control c.key) (put_control c rows) ≡ some c
put-found c rows = elim (Bool-cases (any_where (is_control c.key) rows)) [
  | inl e ↦ rw e (put-update c rows e)
  | inr e ↦ rw e (put-append c rows e)
]

-- Enabling anything but the notifications needs the published evidence.
abbrev pub IsBacked : ControlKey → ControlState → Bool → Type 0
IsBacked key state is_published =
    (state ≡ paused)
    ⊎ (state ≡ permanently_stopped)
    ⊎ (key ≡ ControlKey.notification)
    ⊎ (is_published ≡ true)

-- The pilot operator may set any state, and Ops any but the permanent stop.
abbrev pub IsAllowed : AdminConfig → PlatformIdentity → ControlState → Type 0
IsAllowed config actor state =
    (config.pilot_operator ≡ some actor.id)
    ⊎ ((actor.role ≡ AdminRole.ops) × ((state ≡ enabled) ⊎ (state ≡ paused)))

moves_money-IsBacked :
    (key : ControlKey) (state : ControlState) (b : Bool)
    → is_enabled state && moves_money key && not b ≡ false
    → IsBacked key state b
moves_money-IsBacked key paused b h = inl refl
moves_money-IsBacked key permanently_stopped b h = inr (inl refl)
moves_money-IsBacked ControlKey.notification enabled b h = inr (inr (inl refl))
moves_money-IsBacked ControlKey.global enabled b h = inr (inr (inr (ground arith)))
moves_money-IsBacked ControlKey.initiation enabled b h = inr (inr (inr (ground arith)))
moves_money-IsBacked ControlKey.collection enabled b h = inr (inr (inr (ground arith)))
moves_money-IsBacked ControlKey.payout enabled b h = inr (inr (inr (ground arith)))
moves_money-IsBacked ControlKey.corridor_provider enabled b h = inr (inr (inr (ground arith)))

operator-is : (o : Option String) (id : String) → is_text o id ≡ true → o ≡ some id
operator-is none id h = absurd (ground arith)
operator-is (some t) id h = ap some ((eq_iff t id).0 h)

ops-is : (role : AdminRole) → is_ops role ≡ true → role ≡ AdminRole.ops
ops-is AdminRole.ops h = refl
ops-is AdminRole.customer h = absurd (ground arith)
ops-is AdminRole.support h = absurd (ground arith)
ops-is AdminRole.admin h = absurd (ground arith)

ops-allowed :
    (config : AdminConfig) (actor : PlatformIdentity) (state : ControlState)
    → is_text config.pilot_operator actor.id ≡ false
    → is_refused config actor state ≡ false
    → (actor.role ≡ AdminRole.ops) × ((state ≡ enabled) ⊎ (state ≡ paused))
ops-allowed config actor permanently_stopped e h = absurd (ground (arith, e, h))
ops-allowed config actor enabled e h = (ops-is actor.role (ground (arith, e, h)), inl refl)
ops-allowed config actor paused e h = (ops-is actor.role (ground (arith, e, h)), inr refl)

is_refused-IsAllowed :
    (config : AdminConfig) (actor : PlatformIdentity) (state : ControlState)
    → is_refused config actor state ≡ false
    → IsAllowed config actor state
is_refused-IsAllowed config actor state h =
    elim (Bool-cases (is_text config.pilot_operator actor.id)) [
      | inl e ↦ inl (operator-is config.pilot_operator actor.id e)
      | inr e ↦ inr (ops-allowed config actor state e h)
    ]

-- What setting a control needed, and what it wrote.
pub record IsSwitch (env : Env) (config : AdminConfig) (actor_id : String) (key : ControlKey)
    (state : ControlState) (reason : String) (db db' : Db) : Type 0 where
  pub actor : PlatformIdentity
  pub known : find_where (is_identity actor_id) db.identities ≡ some actor
  pub admitted : is_admitted AdminRole.support actor ≡ true
  pub reasoned : env.is_blank reason ≡ false
  pub backed : IsBacked key state (config.is_published db)
  pub allowed : IsAllowed config actor state
  pub in_force : state_of (find_where (is_control key) db'.controls) ≡ some state
  pub rest_kept : (db'.transactions ≡ db.transactions) × (db'.jobs ≡ db.jobs)

write-effect :
    (env : Env) (c : PilotControl) (name : String) (db : Db) {r : PilotControl} {db' : Db}
    → write_control env c name db ≡ (ok r, db')
    → (db'.controls ≡ put_control c db.controls)
      × (db'.transactions ≡ db.transactions)
      × (db'.jobs ≡ db.jobs)
unfolding write_control record_sensitive ◌>>=◌
write-effect env c name db h = ground arith

actor-known :
    (id : String) (required : AdminRole) (db : Db) {i : PlatformIdentity} {db' : Db}
    → require_actor id required db ≡ (ok i, db')
    → (find_where (is_identity id) db.identities ≡ some i)
      × (is_admitted required i ≡ true)
      × (db' ≡ db)
unfolding require_actor identity_with admit_actor ◌>>=◌
actor-known id required db h = ground (arith, find_where (is_identity id) db.identities)

-- A control is set only with a reason, by a known actor of the staff who is not blocked and whose
-- second factor was verified: the pilot operator, or for anything but a permanent stop somebody of
-- Ops. A control other than that of the notifications is enabled only with published evidence of
-- readiness. The state is then in force, and no transfer or job is touched.
pub set_pilot_control-IsSwitch :
    (env : Env) (config : AdminConfig) (actor_id : String) (key : ControlKey)
    → (state : ControlState) (reason : String) (db : Db) {r : PilotControl} {db' : Db}
    → set_pilot_control env config actor_id key state reason db ≡ (ok r, db')
    → IsSwitch env config actor_id key state reason db db'
unfolding set_pilot_control
set_pilot_control-IsSwitch env config actor_id key state reason db {r} {db'} h =
    let (reasoned, h1) = throw_if-ok _ _ _ db h in
    let (actor, db1, ha, h2) = bind-ok (require_actor actor_id AdminRole.support) _ db h1 in
    let (known, admitted, same) = actor-known actor_id AdminRole.support db ha in
    let (backed, h3) = throw_if-ok _ _ _ db1 (gets-ok config.is_published _ db1 h2) in
    let (allowed, h4) = throw_if-ok _ _ _ db1 h3 in
    let c = new_control key state reason actor.id in
    let (written, transfers, jobs) = write-effect env c (control_name state) db1 h4 in
    record {
      actor = actor;
      known = known;
      admitted = admitted;
      reasoned = reasoned;
      backed = moves_money-IsBacked key state (config.is_published db) (
          ap (λ x. is_enabled state && moves_money key && not (config.is_published x)) (sym same)
          ∙ backed);
      allowed = is_refused-IsAllowed config actor state allowed;
      in_force =
          ap (λ rows. state_of (find_where (is_control key) rows)) written
          ∙ ap state_of (put-found c db1.controls);
      rest_kept = (transfers ∙ ap (λ x. x.transactions) same, jobs ∙ ap (λ x. x.jobs) same);
    }
