-- ===== src/Profile/Eligibility.antt =====
-- `checkTransferEligibility` of zongo/libs/profile/src/sender-profile.service.ts.
use zongo_v.Prelude.{ℕ, not, Option, none, some, String, find_where, is_text, if◌then◌else◌}
use zongo_v.Prelude.Int.{ℤ, pos, ◌+ℤ◌, ltb_ℤ, sum_where}
use zongo_v.Db.Rows.{SenderProfile, KycTier, tier_0, tier_1, tier_2, TierLimitPolicy, Db}
use zongo_v.Db.Env.{Env}
use zongo_v.Db.Monad.{not_found, Result, ok}
use zongo_v.Db.Checks.{◌>>=◌, some_or}
use zongo_v.Transfer.Checks.{
  identity_of, is_blocked, is_tier_0, profile_of, override_per_transfer, override_daily, sent_today,
}
use zongo_v.Worker.Request.{phone_of_sender}
use zongo_v.Profile.Accounts.{for_tier}

pub data Refusal : Type 0 where
  phone_not_bound user_blocked kyc_required per_transfer_limit_exceeded : Refusal
  daily_limit_exceeded : Refusal

pub data TransferEligibility : Type 0 where
  eligible : KycTier → ℤ → ℤ → TransferEligibility
  ineligible : Refusal → TransferEligibility

-- `DEFAULT_LIMITS`
abbrev pub fallback_per_transfer : KycTier → ℤ
fallback_per_transfer tier_0 = pos 10000
fallback_per_transfer tier_1 = pos 500000
fallback_per_transfer tier_2 = pos 2000000

abbrev pub fallback_daily : KycTier → ℤ
fallback_daily tier_0 = pos 20000
fallback_daily tier_1 = pos 1000000
fallback_daily tier_2 = pos 5000000

abbrev pub policy_limit : (TierLimitPolicy → ℤ) → Option TierLimitPolicy → ℤ → ℤ
policy_limit g none fallback = fallback
policy_limit g (some p) fallback = g p

-- `override ?? global ?? fallback`
abbrev pub first_limit : Option ℤ → ℤ → ℤ
first_limit none limit = limit
first_limit (some limit) other = limit

abbrev pub tier_policy : KycTier → Db → Option TierLimitPolicy
tier_policy tier db = find_where (for_tier tier) db.tier_policies

abbrev pub allowed_per_transfer : SenderProfile → Db → ℤ
allowed_per_transfer p db = first_limit (override_per_transfer p.tier_limit_override) (
    policy_limit (λ q. q.per_transfer_limit) (tier_policy p.tier db) (fallback_per_transfer p.tier))

abbrev pub allowed_daily : SenderProfile → Db → ℤ
allowed_daily p db =
    first_limit (override_daily p.tier_limit_override)
      (policy_limit (λ q. q.daily_limit) (tier_policy p.tier db) (fallback_daily p.tier))

-- What the sender sent since the start of the day.
abbrev pub sent_so_far : ℕ → SenderProfile → Db → ℤ
sent_so_far start p db = sum_where (sent_today start p.user_id) (λ t. t.send_amount) db.transactions

abbrev pub check_limits : ℕ → SenderProfile → ℤ → Db → TransferEligibility
check_limits start p amount db =
    if ltb_ℤ (allowed_per_transfer p db) amount
    then ineligible per_transfer_limit_exceeded
    else (if ltb_ℤ (allowed_daily p db) (sent_so_far start p db +ℤ amount)
        then ineligible daily_limit_exceeded
        else eligible p.tier (allowed_per_transfer p db) (allowed_daily p db))

abbrev pub check_identity :
    ℕ → SenderProfile → Option String → String → ℤ → Db → TransferEligibility
check_identity start p bound_phone phone amount db =
    if not (is_text bound_phone phone)
    then ineligible phone_not_bound
    else (if is_tier_0 p.tier then ineligible kyc_required else check_limits start p amount db)

-- `start` is the start of the day of `at`.
abbrev pub judge : Env → ℕ → SenderProfile → String → ℤ → Db → Result TransferEligibility
judge env start p phone amount db =
    if is_blocked (identity_of p.user_id db.identities) then ok (ineligible user_blocked) else (do
      bound_phone ← phone_of_sender env (some p)
      ok (check_identity start p bound_phone phone amount db))

unfoldable pub check_transfer_eligibility :
    Env → ℕ → String → String → ℤ → Db → Result TransferEligibility
check_transfer_eligibility env start id phone amount db = do
  p ← some_or (profile_of id db.profiles) not_found
  judge env start p phone amount db
