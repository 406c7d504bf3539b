-- ===== src/Admin/Logins.antt =====
-- Logins, sessions and break-glass access (zongo/apps/admin/src/admin.service.ts). The hash of a token
-- and the check of a time-based code are cryptography, and a new token is random: parameters.
use zongo_v.Prelude.{
  ℕ, ◌+◌, Bool, true, not, ◌&&◌, ◌||◌, Option, none, some, [], ◌∷◌, ◌++◌, String, any_where,
  find_where, update_where, leb, str_eq, is_some, truthy, ◌==◌,
}
use zongo_v.Db.Rows.{AdminSession, PlatformIdentity, AdminRole, rank, business}
use zongo_v.Db.Env.{Env}
use zongo_v.Db.Monad.{
  forbidden, unauthorized, not_found, unique_violation, Action, ⊤, pure, gets, or_throw, modify,
  throw_if, when, transaction, ◌>>=◌, ◌>>◌,
}
use zongo_v.Ledger.Posting.{append_audit}
use zongo_v.Admin.Actors.{is_identity, identity_with, require_actor, record_sensitive}
use zongo_v.Admin.Policies.{is_user}

pub record Credentials : Type 0 where
  -- `hashToken`
  pub hash : String → String
  -- `randomBytes(32).toString('base64url')`
  pub new_token : String
  -- `verifyTotp`
  pub verify_totp : String → String → Bool
  -- `process.env.BREAK_GLASS_SECRET`
  pub break_glass_secret : Option String

pub record Ticket : Type 0 where
  pub access_token : String
  pub expires_at : ℕ

abbrev pub day_ms : ℕ
day_ms = 28800000

abbrev pub emergency_ms : ℕ
emergency_ms = 1800000

abbrev pub new_admin_session : Env → Credentials → String → String → ℕ → AdminSession
new_admin_session env c identity_id source lifetime = record {
  id = env.new_id "admin-session";
  identity_id = identity_id;
  token_hash = c.hash c.new_token;
  expires_at = env.now + lifetime;
  revoked_at = none;
  revocation_reason = none;
  last_used_at = none;
  source = source;
}

abbrev pub has_token : String → AdminSession → Bool
has_token hash s = str_eq s.token_hash hash

abbrev pub verified_now : ℕ → PlatformIdentity → PlatformIdentity
verified_now now i = record i { mfa_verified_at = some now }

unfoldable pub create_session : Env → Credentials → String → String → ℕ → Action Ticket
create_session env c identity_id source lifetime = transaction (do
  modify (λ db. record db {
    identities = update_where (is_identity identity_id) (verified_now env.now) db.identities;
  })
  taken ← gets (λ db. any_where (has_token (c.hash c.new_token)) db.admin_sessions)
  throw_if taken unique_violation
  modify (λ db. record db {
    admin_sessions = db.admin_sessions ++ new_admin_session env c identity_id source lifetime ∷ [];
  })
  pure (record { access_token = c.new_token; expires_at = env.now + lifetime }))

unfoldable pub user_with : String → Action PlatformIdentity
user_with user_id = do
  found ← gets (λ db. find_where (is_user user_id) db.identities)
  or_throw found not_found

-- `!identity.totpSecret || !verifyTotp(…)`
abbrev pub fails_totp : Credentials → Option String → String → Bool
fails_totp c none code = true
fails_totp c (some secret) code = not (truthy (some secret)) || not (c.verify_totp secret code)

unfoldable pub login : Env → Credentials → String → String → Action Ticket
login env c user_id code = do
  i ← user_with user_id
  throw_if (is_some i.blocked_at) forbidden
  throw_if (fails_totp c i.totp_secret code) unauthorized
  ticket ← create_session env c i.id "TOTP" day_ms
  append_audit business "admin.login.mfa-verified" none env.now
  pure ticket

unfoldable pub login_with_hardware_key : Env → Credentials → String → Action Ticket
login_with_hardware_key env c identity_id = do
  i ← identity_with identity_id
  throw_if (is_some i.blocked_at) forbidden
  ticket ← create_session env c i.id "WEBAUTHN" day_ms
  append_audit business "admin.login.hardware-key-verified" none env.now
  pure ticket

abbrev pub wrong_secret : Option String → String → Bool
wrong_secret none secret = true
wrong_secret (some configured) secret =
    not (truthy (some configured)) || not (str_eq configured secret)

abbrev pub emergency_use : ℕ → PlatformIdentity → PlatformIdentity
emergency_use now i = record i { break_glass_used_at = some now; mfa_verified_at = some now }

-- `useBreakGlass`
unfoldable pub use_break_glass : Env → Credentials → String → String → Action Ticket
use_break_glass env c user_id secret = do
  throw_if (wrong_secret c.break_glass_secret secret) unauthorized
  i ← user_with user_id
  throw_if (not (rank i.role == rank AdminRole.admin)) forbidden
  modify (λ db. record db {
    identities = update_where (is_identity i.id) (emergency_use env.now) db.identities;
  })
  ticket ← create_session env c i.id "BREAK_GLASS" emergency_ms
  record_sensitive env "admin.break-glass.used"
  pure ticket

-- `!session || session.revokedAt || session.expiresAt <= now`
abbrev pub is_unusable : ℕ → AdminSession → Bool
is_unusable now s = is_some s.revoked_at || leb s.expires_at now

abbrev pub is_admin_session : String → AdminSession → Bool
is_admin_session id s = str_eq s.id id

abbrev pub used_now : ℕ → AdminSession → AdminSession
used_now now s = record s { last_used_at = some now }

unfoldable pub actor_from_session : Env → Credentials → String → Action PlatformIdentity
actor_from_session env c token = do
  found ← gets (λ db. find_where (has_token (c.hash token)) db.admin_sessions)
  s ← or_throw found unauthorized
  throw_if (is_unusable env.now s) unauthorized
  modify (λ db. record db {
    admin_sessions = update_where (is_admin_session s.id) (used_now env.now) db.admin_sessions;
  })
  require_actor s.identity_id AdminRole.support

-- A session with the token that was not revoked.
abbrev pub is_live : String → AdminSession → Bool
is_live hash s = has_token hash s && not (is_some s.revoked_at)

abbrev pub revoked : ℕ → String → AdminSession → AdminSession
revoked now reason s = record s { revoked_at = some now; revocation_reason = some reason }

unfoldable pub revoke_session : Env → Credentials → String → String → Action ⊤
revoke_session env c token reason = modify (λ db. record db {
  admin_sessions = update_where (is_live (c.hash token)) (revoked env.now reason) db.admin_sessions;
})

unfoldable pub logout_session : Env → Credentials → String → Action ⊤
logout_session env c token = do
  is_ended ← gets (λ db. any_where (is_live (c.hash token)) db.admin_sessions)
  revoke_session env c token "logout"
  when is_ended (append_audit business "admin.logout" none env.now)
