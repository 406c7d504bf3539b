-- ===== src/Transfer/Input.antt =====
-- The input of `initiate` in zongo/libs/transfer/src/transfer-initiation.service.ts, and the default
-- limits of the tiers.
use zongo_v.Prelude.{Option, none, some, String}
use zongo_v.Prelude.Int.{ℤ, pos}
use zongo_v.Db.Rows.{Currency, KycTier, tier_0, tier_1, tier_2}

-- The quote snapshot is stored as it comes and is left out.
pub record InitiateTransferInput : Type 0 where
  pub sender_profile_id : String
  pub sender_phone_number : String
  pub chat_id : String
  pub inbound_event_id : String
  pub corridor_id : String
  pub beneficiary_id : String
  pub send_amount : ℤ
  pub send_currency : Currency
  pub payout_amount : ℤ
  pub payout_currency : Currency
  pub quote_id : String
  pub idempotency_key : String

-- `DEFAULT_LIMITS[tier]?.perTransferLimitMinor`
abbrev pub default_per_transfer : KycTier → Option ℤ
default_per_transfer tier_0 = none
default_per_transfer tier_1 = some (pos 500000)
default_per_transfer tier_2 = some (pos 2000000)

-- `DEFAULT_LIMITS[tier]?.dailyLimitMinor`
abbrev pub default_daily : KycTier → Option ℤ
default_daily tier_0 = none
default_daily tier_1 = some (pos 1000000)
default_daily tier_2 = some (pos 5000000)
