-- ===== src/Profile/Accounts.antt =====
-- The profiles and the limits of zongo/libs/profile/src/sender-profile.service.ts. The reason and the
-- administrator of an override are not kept.
use zongo_v.Prelude.{
  Bool, false, ◌||◌, not, Option, none, some, List, [], ◌∷◌, ◌++◌, String, any_where, update_where,
  str_eq, is_text, get_or, if◌then◌else◌,
}
use zongo_v.Prelude.Int.{ℤ, pos, leb_ℤ}
use zongo_v.Db.Rows.{SenderProfile, TierLimitPolicy, KycTier, tier_0, tier_eq, business}
use zongo_v.Db.Env.{Env}
use zongo_v.Db.Monad.{
  domain, invalid_limit, unique_violation, plain, Action, ⊤, pure, gets, modify, throw_if, ◌>>=◌,
  ◌>>◌,
}
use zongo_v.Ledger.Posting.{append_audit}
use zongo_v.Transfer.Checks.{overridden, override_per_transfer, override_daily}
use zongo_v.Worker.Request.{kept}

pub record CreateSenderProfileInput : Type 0 where
  pub user_id : String
  pub whatsapp_phone_number : String
  pub legal_name : Option String
  pub email : Option String
  pub backup_phone_number : Option String
  pub preferred_language : Option String

-- A field that is encrypted where it is given.
abbrev pub sealed : Env → String → Option String → Option String
sealed env purpose none = none
sealed env purpose (some text) = some (env.encrypt text purpose)

abbrev pub indexed : Env → String → Option String → Option String
indexed env purpose none = none
indexed env purpose (some text) = some (env.blind_index text purpose)

abbrev pub new_profile : Env → CreateSenderProfileInput → SenderProfile
new_profile env input = record {
  id = env.new_id input.user_id;
  user_id = input.user_id;
  sender_phone_number = none;
  sender_phone_ciphertext = some (env.encrypt input.whatsapp_phone_number "sender-phone");
  sender_phone_blind_index = some (env.blind_index input.whatsapp_phone_number "sender-phone");
  legal_name = input.legal_name;
  email_ciphertext = sealed env "sender-email" (kept input.email);
  email_blind_index = indexed env "sender-email" (kept input.email);
  backup_phone_ciphertext = sealed env "sender-phone" (kept input.backup_phone_number);
  preferred_language = get_or input.preferred_language "en";
  tier = tier_0;
  verified_at = none;
  tier_limit_override = none;
  allowlist_enabled = none;
}

-- Equal values of a nullable unique column; nulls do not collide.
abbrev pub collides : Option String → Option String → Bool
collides none column = false
collides (some value) column = is_text column value

-- The unique columns of a profile.
abbrev pub clashes : SenderProfile → SenderProfile → Bool
clashes p q =
    str_eq p.user_id q.user_id
    || collides p.email_blind_index q.email_blind_index
    || collides p.sender_phone_blind_index q.sender_phone_blind_index

unfoldable pub create_profile : Env → CreateSenderProfileInput → Action SenderProfile
create_profile env input = do
  taken ← gets (λ db. any_where (clashes (new_profile env input)) db.profiles)
  throw_if taken unique_violation
  modify (λ db. record db { profiles = db.profiles ++ new_profile env input ∷ [] })
  append_audit business "sender.profile.created" none env.now
  pure (new_profile env input)

abbrev pub for_tier : KycTier → TierLimitPolicy → Bool
for_tier tier p = tier_eq p.tier tier

-- `tierLimitPolicy.upsert({ where: { tier }, … })`
abbrev pub upsert_policy : TierLimitPolicy → List TierLimitPolicy → List TierLimitPolicy
upsert_policy p ps =
    if any_where (for_tier p.tier) ps
    then update_where (for_tier p.tier) (λ _. p) ps
    else ps ++ p ∷ []

abbrev pub is_not_positive : ℤ → Bool
is_not_positive limit = leb_ℤ limit (pos 0)

unfoldable pub set_global_tier_limits : KycTier → ℤ → ℤ → String → Action TierLimitPolicy
set_global_tier_limits tier per_transfer daily admin_id = do
  throw_if (is_not_positive per_transfer || is_not_positive daily) (domain invalid_limit)
  let policy : TierLimitPolicy = record {
    tier = tier;
    per_transfer_limit = per_transfer;
    daily_limit = daily;
    updated_by = some admin_id;
  }
  modify (λ db. record db { tier_policies = upsert_policy policy db.tier_policies })
  pure policy

abbrev pub is_invalid_limit : Option ℤ → Bool
is_invalid_limit none = false
is_invalid_limit (some limit) = is_not_positive limit

abbrev pub has_id : String → SenderProfile → Bool
has_id id p = str_eq p.id id

-- An upsert leaves a column as it is where its new value is undefined.
abbrev pub with_override : Option ℤ → Option ℤ → SenderProfile → SenderProfile
with_override per_transfer daily p = record p {
  tier_limit_override = some (record {
    per_transfer_limit = overridden per_transfer (override_per_transfer p.tier_limit_override);
    daily_limit = overridden daily (override_daily p.tier_limit_override);
  });
}

-- The profile of an override is there, by its foreign key.
unfoldable pub set_sender_limit_override : String → Option ℤ → Option ℤ → Action ⊤
set_sender_limit_override id per_transfer daily = do
  throw_if (is_invalid_limit per_transfer) (domain invalid_limit)
  throw_if (is_invalid_limit daily) (domain invalid_limit)
  missing ← gets (λ db. not (any_where (has_id id) db.profiles))
  throw_if missing (plain "Foreign key constraint violated")
  modify (λ db. record db {
    profiles = update_where (has_id id) (with_override per_transfer daily) db.profiles;
  })
