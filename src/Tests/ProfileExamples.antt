-- ===== src/Tests/ProfileExamples.antt =====
-- Verifications and the senders that they admit, at concrete inputs.
use zongo_v.Prelude.{◌≡◌, refl, true, false, none, some, [], ◌∷◌}
use zongo_v.Prelude.Int.{pos}
use zongo_v.Db.Rows.{Verification, VerificationStatus, tier_1, TierLimitPolicy, Db}
use zongo_v.Db.Monad.{ok, ◌>>=◌}
use zongo_v.Transfer.Checks.{is_blocked, identity_of}
use zongo_v.Profile.Review.{
  ApproveVerificationInput, Approval, bound, approved, expired, grant, case_of, owner_of,
  update_case, bind_phone, create_replacement, lapse, approve_verification, decide_approval,
  decide_expiry, expire_verification,
}
use zongo_v.Profile.Standing.{Operation, perform, Follows, perform-Follows}
use zongo_v.Profile.Eligibility.{check_limits, check_transfer_eligibility}
use zongo_v.Profile.Allowance.{says_eligible, expired-ineligible, approved-eligible}
use zongo_v.Tests.Data.{test_env, later_env, test_db, sender}

abbrev case : Verification
case = record {
  id = "v1";
  sender_profile_id = "p1";
  provider_reference = "ob-1";
  provider_reference_blind_index = some "ob-1";
  idempotency_key = "vk-1";
  status = VerificationStatus.human_review;
  verified_phone_number = none;
  verified_phone_ciphertext = some "+1666";
  evidence_ciphertext = none;
  failure_reason = none;
  decision_reason = none;
  collected_by = some "collector";
  reviewer = none;
  consent_at = none;
  reviewed_at = none;
  expires_at = none;
  completed_at = none;
}

abbrev with_case : VerificationStatus → Db
with_case status = record test_db { verifications = record case { status = status } ∷ [] }

abbrev review_db : Db
review_db = with_case VerificationStatus.human_review

abbrev review : ApproveVerificationInput
review = record { verification_id = "v1"; reviewer = "reviewer"; decision_reason = "checked" }

abbrev approval : Approval
approval = record {
  profile = bound test_env "+1666" sender;
  verification = approved test_env review case;
  replaced_phone = true;
}

abbrev approved_db : Db
approved_db = (approve_verification test_env review review_db).1

review-Approved : approve_verification test_env review review_db ≡ (ok approval, approved_db)
unfolding approve_verification decide_approval case_of owner_of grant update_case create_replacement
    bind_phone ◌>>=◌
review-Approved = refl

perform-Follows_example : Follows (perform test_env (Operation.approve review) review_db) "v1" case
perform-Follows_example =
    perform-Follows test_env (Operation.approve review) review_db "v1" case refl

abbrev good_case : Verification
good_case = record case { status = VerificationStatus.approved }

abbrev lapsed_db : Db
lapsed_db = (expire_verification test_env "v1" "old" (with_case VerificationStatus.approved)).1

expiry-Done :
    expire_verification test_env "v1" "old" (with_case VerificationStatus.approved)
    ≡ (ok (expired test_env "old" good_case), lapsed_db)
unfolding expire_verification decide_expiry case_of owner_of lapse update_case ◌>>=◌
expiry-Done = refl

expired-ineligible_example :
    says_eligible (check_transfer_eligibility later_env 90000000 "p1" "+1555" (pos 100) lapsed_db)
    ≡ false
expired-ineligible_example =
    expired-ineligible later_env 90000000 "+1555" (pos 100) test_env "v1" "old"
      (with_case VerificationStatus.approved) expiry-Done good_case refl

approved_db-free : is_blocked (identity_of "u1" approved_db.identities) ≡ false
unfolding approve_verification decide_approval case_of owner_of grant update_case create_replacement
    bind_phone ◌>>=◌
approved_db-free = refl

approved-eligible_example :
    check_transfer_eligibility later_env 90000000 "p1" "+1666" (pos 100) approved_db
    ≡ ok (check_limits 90000000 (bound test_env "+1666" sender) (pos 100) approved_db)
approved-eligible_example =
    approved-eligible test_env later_env "+1666" refl refl review review_db review-Approved case
      refl refl sender refl approved_db-free 90000000 (pos 100)

abbrev small_policy : TierLimitPolicy
small_policy = record {
  tier = tier_1;
  per_transfer_limit = pos 10;
  daily_limit = pos 20;
  updated_by = some "admin";
}

abbrev capped_db : Db
capped_db = record test_db { tier_policies = small_policy ∷ [] }
