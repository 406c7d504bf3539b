-- ===== src/Db/Rows/People.antt =====
-- Senders, beneficiaries, corridors and platform identities (zongo/prisma/schema.prisma).
use zongo_v.Prelude.{ℕ, Bool, Option, String, ◌==◌}
use zongo_v.Prelude.Int.{ℤ}
use zongo_v.Db.Rows.Transfers.{Currency}

pub record Beneficiary : Type 0 where
  pub id : String
  pub family_id : String
  pub corridor_id : String
  pub user_id : String
  pub display_name : String
  pub payout_country_code : String
  pub payout_currency : Currency
  pub phone_number : Option String
  pub phone_number_ciphertext : Option String
  pub phone_number_blind_index : Option String
  pub payout_account_ciphertext : Option String
  pub version : ℕ
  pub supersedes_id : Option String
  pub is_current : Bool

pub record CorridorPolicy : Type 0 where
  pub corridor_id : String
  pub version : ℕ
  pub is_active : Bool
  pub send_currency : Currency
  pub payout_currency : Currency
  pub min_send_amount : Option ℤ
  pub max_send_amount : Option ℤ

pub data KycTier : Type 0 where
  tier_0 tier_1 tier_2 : KycTier

abbrev pub tier_tag : KycTier → ℕ
tier_tag tier_0 = 0
tier_tag tier_1 = 1
tier_tag tier_2 = 2

abbrev pub tier_eq : KycTier → KycTier → Bool
tier_eq a b = tier_tag a == tier_tag b

pub record TierLimitPolicy : Type 0 where
  pub tier : KycTier
  pub per_transfer_limit : ℤ
  pub daily_limit : ℤ
  pub updated_by : Option String

pub data VerificationStatus : Type 0 where
  pending technical_review human_review approved rejected escalated expired : VerificationStatus

abbrev pub verification_tag : VerificationStatus → ℕ
verification_tag VerificationStatus.pending = 0
verification_tag VerificationStatus.technical_review = 1
verification_tag VerificationStatus.human_review = 2
verification_tag VerificationStatus.approved = 3
verification_tag VerificationStatus.rejected = 4
verification_tag VerificationStatus.escalated = 5
verification_tag VerificationStatus.expired = 6

abbrev pub verification_eq : VerificationStatus → VerificationStatus → Bool
verification_eq a b = verification_tag a == verification_tag b

pub record Verification : Type 0 where
  pub id : String
  pub sender_profile_id : String
  pub provider_reference : String
  pub provider_reference_blind_index : Option String
  pub idempotency_key : String
  pub status : VerificationStatus
  pub verified_phone_number : Option String
  pub verified_phone_ciphertext : Option String
  pub evidence_ciphertext : Option String
  pub failure_reason : Option String
  pub decision_reason : Option String
  pub collected_by : Option String
  pub reviewer : Option String
  pub consent_at : Option ℕ
  pub reviewed_at : Option ℕ
  pub expires_at : Option ℕ
  pub completed_at : Option ℕ

pub record PhoneReplacement : Type 0 where
  pub sender_profile_id : String
  pub previous_ciphertext : String
  pub replacement_ciphertext : String
  pub previous_blind_index : String
  pub replacement_blind_index : String
  pub verification_id : String

-- `tierLimitOverride` and `pilotAllowlist` are the rows that the queries include.
pub record LimitOverride : Type 0 where
  pub per_transfer_limit : Option ℤ
  pub daily_limit : Option ℤ

pub record SenderProfile : Type 0 where
  pub id : String
  pub user_id : String
  pub sender_phone_number : Option String
  pub sender_phone_ciphertext : Option String
  pub sender_phone_blind_index : Option String
  pub legal_name : Option String
  pub email_ciphertext : Option String
  pub email_blind_index : Option String
  pub backup_phone_ciphertext : Option String
  pub preferred_language : String
  pub tier : KycTier
  pub verified_at : Option ℕ
  pub tier_limit_override : Option LimitOverride
  pub allowlist_enabled : Option Bool

pub data AdminRole : Type 0 where
  customer support ops admin : AdminRole

-- The `rank` of a role.
abbrev pub rank : AdminRole → ℕ
rank AdminRole.customer = 0
rank AdminRole.support = 1
rank AdminRole.ops = 2
rank AdminRole.admin = 3

pub record PlatformIdentity : Type 0 where
  pub id : String
  pub user_id : String
  pub role : AdminRole
  pub totp_secret : Option String
  pub mfa_verified_at : Option ℕ
  pub blocked_at : Option ℕ
  pub blocked_by : Option String
  pub blocked_reason : Option String
  pub break_glass_used_at : Option ℕ

pub record AdminSession : Type 0 where
  pub id : String
  pub identity_id : String
  pub token_hash : String
  pub expires_at : ℕ
  pub revoked_at : Option ℕ
  pub revocation_reason : Option String
  pub last_used_at : Option ℕ
  pub source : String
