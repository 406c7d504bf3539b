-- ===== src/Profile/Review.antt =====
-- The decisions on a verification in zongo/libs/profile/src/sender-profile.service.ts.
use zongo_v.Prelude.{
  ℕ, Bool, ◌&&◌, ◌||◌, not, Option, none, some, [], ◌∷◌, ◌++◌, String, any_where, update_where,
  find_where, str_eq, is_text, truthy, get_or, if◌then◌else◌,
}
use zongo_v.Db.Rows.{
  Verification, VerificationStatus, verification_eq, SenderProfile, PhoneReplacement, tier_0,
  tier_1, business,
}
use zongo_v.Db.Env.{Env}
use zongo_v.Db.Monad.{
  domain, verification_decision_reason_required, verification_not_ready_for_approval,
  verification_reviewer_not_independent, verified_phone_required, verification_not_reviewable,
  verification_expiry_reason_required, verification_not_approved, not_found, unique_violation,
  Result, Action, ⊤, pure, gets, reads, or_throw, modify, throw_if, transaction, ◌>>=◌, ◌>>◌,
}
use zongo_v.Ledger.Posting.{append_audit}
use zongo_v.Worker.Request.{kept, decrypted, phone_of_sender}
use zongo_v.Profile.Accounts.{has_id}

pub record ApproveVerificationInput : Type 0 where
  pub verification_id : String
  pub reviewer : String
  pub decision_reason : String

pub data Decision : Type 0 where
  rejected escalated : Decision

pub record ResolveVerificationInput : Type 0 where
  pub verification_id : String
  pub reviewer : String
  pub decision : Decision
  pub decision_reason : String

-- What `approveVerification` returns.
pub record Approval : Type 0 where
  pub profile : SenderProfile
  pub verification : Verification
  pub replaced_phone : Bool

abbrev pub is_case : String → Verification → Bool
is_case id v = str_eq v.id id

unfoldable pub case_of : String → Action Verification
case_of id = do
  found ← gets (λ db. find_where (is_case id) db.verifications)
  or_throw found not_found

unfoldable pub owner_of : Verification → Action SenderProfile
owner_of v = do
  found ← gets (λ db. find_where (has_id v.sender_profile_id) db.profiles)
  or_throw found not_found

unfoldable pub update_case : String → (Verification → Verification) → Action ⊤
update_case id f =
    modify (λ db. record db { verifications = update_where (is_case id) f db.verifications })

-- The reviewer collected the evidence.
abbrev pub is_collector : Verification → String → Bool
is_collector v reviewer = truthy v.collected_by && is_text v.collected_by reviewer

abbrev pub verified_phone : Env → Verification → Result (Option String)
verified_phone env v = elim v.verified_phone_number [
  | some number ↦ Result.ok (some number)
  | none ↦ decrypted env "sender-phone" (kept v.verified_phone_ciphertext)
]

abbrev pub approved : Env → ApproveVerificationInput → Verification → Verification
approved env input v = record v {
  status = VerificationStatus.approved;
  reviewer = some input.reviewer;
  decision_reason = some input.decision_reason;
  reviewed_at = some env.now;
  completed_at = some env.now;
}

-- `previousPhone && previousPhone !== verifiedPhoneNumber`
abbrev pub is_replaced : Option String → String → Bool
is_replaced previous phone = truthy previous && not (is_text previous phone)

abbrev pub replacement : Env → String → String → String → String → PhoneReplacement
replacement env profile_id verification_id previous phone = record {
  sender_profile_id = profile_id;
  previous_ciphertext = env.encrypt previous "sender-phone";
  replacement_ciphertext = env.encrypt phone "sender-phone";
  previous_blind_index = env.blind_index previous "sender-phone";
  replacement_blind_index = env.blind_index phone "sender-phone";
  verification_id = verification_id;
}

abbrev pub replaces_for : String → PhoneReplacement → Bool
replaces_for id r = str_eq r.verification_id id

unfoldable pub create_replacement : PhoneReplacement → Action ⊤
create_replacement r = do
  taken ← gets (λ db. any_where (replaces_for r.verification_id) db.phone_replacements)
  throw_if taken unique_violation
  modify (λ db. record db { phone_replacements = db.phone_replacements ++ r ∷ [] })

abbrev pub bound : Env → String → SenderProfile → SenderProfile
bound env phone p = record p {
  sender_phone_number = none;
  sender_phone_ciphertext = some (env.encrypt phone "sender-phone");
  sender_phone_blind_index = some (env.blind_index phone "sender-phone");
  tier = tier_1;
  verified_at = some env.now;
}

-- Another profile has the phone's index.
abbrev pub is_taken_by : String → String → SenderProfile → Bool
is_taken_by id index p = not (has_id id p) && is_text p.sender_phone_blind_index index

unfoldable pub bind_phone : Env → String → SenderProfile → Action ⊤
bind_phone env phone p = do
  taken ←
      gets (λ db. any_where (is_taken_by p.id (env.blind_index phone "sender-phone")) db.profiles)
  throw_if taken unique_violation
  modify (λ db. record db { profiles = update_where (has_id p.id) (bound env phone) db.profiles })

-- The writes of an approval.
unfoldable pub grant :
    Env → ApproveVerificationInput → Verification → SenderProfile → String → Action Approval
grant env input v p phone = do
  update_case v.id (approved env input)
  previous ← reads (λ db. phone_of_sender env (some p))
  let replaced : Bool = is_replaced previous phone
  if replaced
      then create_replacement (replacement env p.id v.id (get_or previous "") phone)
      else pure tt
  bind_phone env phone p
  append_audit business
      (if replaced then "sender.phone.replaced" else "sender.verification.approved") none env.now
  pure (record {
    profile = bound env phone p;
    verification = approved env input v;
    replaced_phone = replaced;
  })

unfoldable pub decide_approval : Env → ApproveVerificationInput → Action Approval
decide_approval env input = do
  v ← case_of input.verification_id
  p ← owner_of v
  throw_if (not (verification_eq v.status VerificationStatus.human_review))
      (domain verification_not_ready_for_approval)
  throw_if (is_collector v input.reviewer) (domain verification_reviewer_not_independent)
  phone ← reads (λ db. verified_phone env v)
  throw_if (not (truthy phone)) (domain verified_phone_required)
  grant env input v p (get_or phone "")

unfoldable pub approve_verification : Env → ApproveVerificationInput → Action Approval
approve_verification env input = do
  throw_if (env.is_blank input.decision_reason) (domain verification_decision_reason_required)
  transaction (decide_approval env input)

abbrev pub decided : Decision → VerificationStatus
decided Decision.rejected = VerificationStatus.rejected
decided Decision.escalated = VerificationStatus.escalated

abbrev pub completion : Env → Decision → Option ℕ → Option ℕ
completion env Decision.rejected before = some env.now
completion env Decision.escalated before = before

abbrev pub resolved : Env → ResolveVerificationInput → Verification → Verification
resolved env input v = record v {
  status = decided input.decision;
  reviewer = some input.reviewer;
  decision_reason = some input.decision_reason;
  reviewed_at = some env.now;
  completed_at = completion env input.decision v.completed_at;
}

abbrev pub resolution_name : Decision → String
resolution_name Decision.rejected = "sender.verification.rejected"
resolution_name Decision.escalated = "sender.verification.escalated"

abbrev pub is_reviewable : VerificationStatus → Bool
is_reviewable s =
    verification_eq s VerificationStatus.technical_review
    || verification_eq s VerificationStatus.human_review

-- The writes of a resolution.
unfoldable pub close_case : Env → ResolveVerificationInput → Verification → Action Verification
close_case env input v = do
  update_case v.id (resolved env input)
  append_audit business (resolution_name input.decision) none env.now
  pure (resolved env input v)

unfoldable pub decide_resolution : Env → ResolveVerificationInput → Action Verification
decide_resolution env input = do
  v ← case_of input.verification_id
  throw_if (not (is_reviewable v.status)) (domain verification_not_reviewable)
  throw_if (is_collector v input.reviewer) (domain verification_reviewer_not_independent)
  close_case env input v

unfoldable pub resolve_verification : Env → ResolveVerificationInput → Action Verification
resolve_verification env input = do
  throw_if (env.is_blank input.decision_reason) (domain verification_decision_reason_required)
  transaction (decide_resolution env input)

abbrev pub expired : Env → String → Verification → Verification
expired env reason v = record v {
  status = VerificationStatus.expired;
  decision_reason = some reason;
  reviewed_at = some env.now;
  expires_at = some env.now;
}

abbrev pub lapsed : SenderProfile → SenderProfile
lapsed p = record p { tier = tier_0; verified_at = none }

-- The writes of an expiry.
unfoldable pub lapse : Env → String → Verification → SenderProfile → Action Verification
lapse env reason v p = do
  update_case v.id (expired env reason)
  modify (λ db. record db { profiles = update_where (has_id p.id) lapsed db.profiles })
  append_audit business "sender.verification.expired" none env.now
  pure (expired env reason v)

unfoldable pub decide_expiry : Env → String → String → Action Verification
decide_expiry env id reason = do
  v ← case_of id
  p ← owner_of v
  throw_if (not (verification_eq v.status VerificationStatus.approved))
      (domain verification_not_approved)
  lapse env reason v p

unfoldable pub expire_verification : Env → String → String → Action Verification
expire_verification env id reason = do
  throw_if (env.is_blank reason) (domain verification_expiry_reason_required)
  transaction (decide_expiry env id reason)
