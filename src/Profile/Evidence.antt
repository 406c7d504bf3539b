-- ===== src/Profile/Evidence.antt =====
-- `recordTechnicalVerification` of zongo/libs/profile/src/sender-profile.service.ts. The evidence is
-- the text of its JSON.
use zongo_v.Prelude.{
  ℕ, Bool, ◌||◌, ◌&&◌, not, Option, none, some, [], ◌∷◌, ◌++◌, String, any_where, find_where,
  str_eq,
}
use zongo_v.Db.Rows.{Verification, VerificationStatus, verification_eq, business}
use zongo_v.Db.Env.{Env}
use zongo_v.Db.Monad.{
  domain, verification_idempotency_conflict, unique_violation, not_found, Action, pure, gets,
  or_throw, modify, throw_if, when, ◌>>=◌, ◌>>◌,
}
use zongo_v.Ledger.Posting.{append_audit}
use zongo_v.Profile.Accounts.{sealed, has_id}

-- The statuses that a collector may report.
pub data ReportedStatus : Type 0 where
  pending technical_review human_review rejected escalated : ReportedStatus

abbrev pub reported : Option ReportedStatus → VerificationStatus
reported none = VerificationStatus.technical_review
reported (some ReportedStatus.pending) = VerificationStatus.pending
reported (some ReportedStatus.technical_review) = VerificationStatus.technical_review
reported (some ReportedStatus.human_review) = VerificationStatus.human_review
reported (some ReportedStatus.rejected) = VerificationStatus.rejected
reported (some ReportedStatus.escalated) = VerificationStatus.escalated

pub record TechnicalVerificationInput : Type 0 where
  pub sender_profile_id : String
  pub provider_reference : String
  pub idempotency_key : String
  pub verified_phone_number : String
  pub status : Option ReportedStatus
  pub failure_reason : Option String
  pub collected_by : Option String
  pub consent_at : Option ℕ
  pub evidence : Option String

abbrev pub keyed : String → Verification → Bool
keyed key v = str_eq v.idempotency_key key

abbrev pub new_verification : Env → TechnicalVerificationInput → String → Verification
new_verification env input profile_id = record {
  id = env.new_id input.idempotency_key;
  sender_profile_id = profile_id;
  provider_reference = input.provider_reference;
  provider_reference_blind_index =
      some (env.blind_index input.provider_reference "provider-reference");
  idempotency_key = input.idempotency_key;
  status = reported input.status;
  verified_phone_number = none;
  verified_phone_ciphertext = some (env.encrypt input.verified_phone_number "sender-phone");
  evidence_ciphertext = sealed env "kyc-evidence" input.evidence;
  failure_reason = input.failure_reason;
  decision_reason = none;
  collected_by = input.collected_by;
  reviewer = none;
  consent_at = input.consent_at;
  reviewed_at = none;
  expires_at = none;
  completed_at = none;
}

-- The same inputs as those of the stored row.
abbrev pub is_same_case : TechnicalVerificationInput → Verification → Bool
is_same_case input v =
    str_eq v.sender_profile_id input.sender_profile_id
    && str_eq v.provider_reference input.provider_reference

abbrev pub needs_review : VerificationStatus → Bool
needs_review s =
    verification_eq s VerificationStatus.rejected || verification_eq s VerificationStatus.escalated

-- The unique columns of a verification.
abbrev pub repeats : Verification → Verification → Bool
repeats v w =
    str_eq v.provider_reference w.provider_reference || str_eq v.idempotency_key w.idempotency_key

unfoldable pub insert_verification : Env → TechnicalVerificationInput → Action Verification
insert_verification env input = do
  found ← gets (λ db. find_where (has_id input.sender_profile_id) db.profiles)
  profile ← or_throw found not_found
  let v : Verification = new_verification env input profile.id
  taken ← gets (λ db. any_where (repeats v) db.verifications)
  throw_if taken unique_violation
  modify (λ db. record db { verifications = db.verifications ++ v ∷ [] })
  when (needs_review v.status)
      (append_audit business "sender.verification.review_required" none env.now)
  pure v

abbrev pub answer_case :
    Env → TechnicalVerificationInput → Option Verification → Action Verification
answer_case env input none = insert_verification env input
answer_case env input (some v) = do
  throw_if (not (is_same_case input v)) (domain verification_idempotency_conflict)
  pure v

unfoldable pub record_technical_verification :
    Env → TechnicalVerificationInput → Action Verification
record_technical_verification env input = do
  existing ← gets (λ db. find_where (keyed input.idempotency_key) db.verifications)
  answer_case env input existing
