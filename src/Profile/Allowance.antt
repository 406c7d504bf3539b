-- ===== src/Profile/Allowance.antt =====
-- Who may send, by `checkTransferEligibility` of zongo/libs/profile/src/sender-profile.service.ts.
use mathlib.Core.Option.{some-injective}
use text.Mathlib.TextEquality.{eq_iff}
use text.Mathlib.TextPositions.{eq_refl}
use zongo_v.Prelude.{
  ℕ, ◌≡◌, ◌≢◌, refl, sym, ap, ◌∙◌, inl, inr, Bool, true, false, Option, some, List, [], String,
  find_where, update_where, str_eq, truthy, is_text, find_where_holds, find_where-update_where,
  Bool-cases, arith,
}
use zongo_v.Prelude.Int.{ℤ}
use zongo_v.Db.Rows.{Verification, SenderProfile, KycTier, tier_0, TierLimitPolicy, Db}
use zongo_v.Db.Env.{Env}
use zongo_v.Db.Monad.{Result, ok, err, ⊤, ◌>>=◌}
use zongo_v.Db.Checks
use zongo_v.Transfer.Input.{InitiateTransferInput}
use zongo_v.Transfer.Checks.{check_sender_limits, is_blocked, identity_of, profile_of}
use zongo_v.Worker.Request.{phone_of_sender}
use zongo_v.Profile.Accounts.{has_id}
use zongo_v.Profile.Review.{
  Approval, ApproveVerificationInput, is_case, bound, verified_phone, approve_verification, lapsed,
  expire_verification,
}
use zongo_v.Profile.Decisions.{approve_verification-IsApproval, expire_verification-IsExpiry}
use zongo_v.Profile.Eligibility.{
  TransferEligibility, eligible, ineligible, check_limits, check_transfer_eligibility, judge,
  check_identity,
}

abbrev pub is_eligible : TransferEligibility → Bool
is_eligible (eligible tier per_transfer daily) = true
is_eligible (ineligible reason) = false

abbrev pub says_eligible : Result TransferEligibility → Bool
says_eligible (ok e) = is_eligible e
says_eligible (err e) = false

abbrev pub is_ok : Result ⊤ → Bool
is_ok (ok _) = true
is_ok (err _) = false

-- A profile that was found and changed is found changed.
updated_profile :
    (f : SenderProfile → SenderProfile) (ps : List SenderProfile) (id : String) {p : SenderProfile}
    → ((q : SenderProfile) → (f q).id ≡ q.id)
    → find_where (has_id id) ps ≡ some p
    → find_where (has_id p.id) (update_where (has_id p.id) f ps) ≡ some (f p)
updated_profile f ps id {p} keeps found =
    let same : p.id ≡ id = (eq_iff p.id id).0 (find_where_holds (has_id id) ps found) in
    find_where-update_where (has_id p.id) f ps (λ q. ap (λ i. str_eq i p.id) (keeps q))
      (ap (λ i. find_where (has_id i) ps) same ∙ found)

module _ (env : Env) (start : ℕ) (phone : String) (amount : ℤ) where
  identity-ineligible :
      (db : Db) (p : SenderProfile) (bound_phone : Option String)
      → p.tier ≡ tier_0
      → is_eligible (check_identity start p bound_phone phone amount db) ≡ false
  identity-ineligible db p bound_phone h = elim (Bool-cases (is_text bound_phone phone)) [
    | inl e ↦ rw (e, h) refl
    | inr e ↦ rw e refl
  ]

  phone-ineligible :
      (db : Db) (p : SenderProfile) (r : Result (Option String))
      → p.tier ≡ tier_0
      → says_eligible
          (Checks.◌>>=◌ r λ bound_phone. ok (check_identity start p bound_phone phone amount db))
        ≡ false
  phone-ineligible db p (ok bound_phone) h = identity-ineligible db p bound_phone h
  phone-ineligible db p (err e) h = refl

  tier_0-ineligible :
      (db : Db) (p : SenderProfile)
      → p.tier ≡ tier_0
      → says_eligible (judge env start p phone amount db) ≡ false
  tier_0-ineligible db p h = elim (Bool-cases (is_blocked (identity_of p.user_id db.identities))) [
    | inl e ↦ rw e refl
    | inr e ↦ rw e (phone-ineligible db p (phone_of_sender env (some p)) h)
  ]

  -- Once a verification expired, its sender is not eligible for any amount from any phone.
  pub expired-ineligible :
      (at : Env) (id reason : String) (db : Db) {v : Verification} {db' : Db}
      → expire_verification at id reason db ≡ (ok v, db')
      → (w : Verification) → find_where (is_case id) db.verifications ≡ some w
      → says_eligible (check_transfer_eligibility env start w.sender_profile_id phone amount db')
        ≡ false
  unfolding check_transfer_eligibility
  expired-ineligible at id reason db {v} {db'} h w found =
      let a = expire_verification-IsExpiry at id reason db h in
      let same : a.v ≡ w = some-injective _ _ (sym a.on.case_found ∙ found) in
      let owner : a.p.id ≡ w.sender_profile_id =
        (eq_iff a.p.id a.v.sender_profile_id).0
          (find_where_holds (has_id a.v.sender_profile_id) db.profiles a.on.owner_found)
        ∙ ap (λ x. x.sender_profile_id) same in
      let there : profile_of w.sender_profile_id db'.profiles ≡ some (lapsed a.p) =
        ap (λ i. find_where (has_id i) db'.profiles) (sym owner)
        ∙ ap (find_where (has_id a.p.id)) a.written.1
        ∙ updated_profile lapsed db.profiles a.v.sender_profile_id (λ q. refl) a.on.owner_found in
      rw there (tier_0-ineligible db' (lapsed a.p) refl)

same_phone : {x y : String} → ◌≡◌ {A = Result (Option String)} (ok (some x)) (ok (some y)) → x ≡ y
same_phone h = ground arith

module _ (at env : Env) (phone : String) where
  bound-phone :
      (p : SenderProfile)
      → truthy (some (at.encrypt phone "sender-phone")) ≡ true
      → env.decrypt (at.encrypt phone "sender-phone") "sender-phone" ≡ some phone
      → phone_of_sender env (some (bound at phone p)) ≡ ok (some phone)
  bound-phone p there opens = rw (there, opens) refl

  -- After an approval, the sender's phone is the one that was verified: unless the sender is blocked,
  -- only the limits of the amounts are left to check. The encryption is one that decrypts to what was
  -- encrypted.
  pub approved-eligible :
      truthy (some (at.encrypt phone "sender-phone")) ≡ true
      → env.decrypt (at.encrypt phone "sender-phone") "sender-phone" ≡ some phone
      → (input : ApproveVerificationInput) (db : Db) {r : Approval} {db' : Db}
      → approve_verification at input db ≡ (ok r, db')
      → (w : Verification) → find_where (is_case input.verification_id) db.verifications ≡ some w
      → verified_phone at w ≡ ok (some phone)
      → (p : SenderProfile) → find_where (has_id w.sender_profile_id) db.profiles ≡ some p
      → is_blocked (identity_of p.user_id db'.identities) ≡ false
      → (start : ℕ) (amount : ℤ)
      → check_transfer_eligibility env start w.sender_profile_id phone amount db'
        ≡ ok (check_limits start (bound at phone p) amount db')
  unfolding check_transfer_eligibility
  approved-eligible there opens input db {r} {db'} h w found proved p owned free start amount =
      let a = approve_verification-IsApproval at input db h in
      let case : a.v ≡ w = some-injective _ _ (sym a.on.case_found ∙ found) in
      let owner : a.p ≡ p = some-injective _ _ (
        sym a.on.owner_found
        ∙ ap (λ x. find_where (has_id x.sender_profile_id) db.profiles) case
        ∙ owned) in
      let number : a.phone ≡ phone =
        same_phone (sym a.proved ∙ ap (verified_phone at) case ∙ proved) in
      let written : db'.profiles ≡ update_where (has_id p.id) (bound at phone) db.profiles =
        a.written.1
        ∙ ap (λ x. update_where (has_id a.p.id) (bound at x) db.profiles) number
        ∙ ap (λ x. update_where (has_id x.id) (bound at phone) db.profiles) owner in
      let id : p.id ≡ w.sender_profile_id =
        (eq_iff p.id w.sender_profile_id).0
          (find_where_holds (has_id w.sender_profile_id) db.profiles owned) in
      let stored : profile_of w.sender_profile_id db'.profiles ≡ some (bound at phone p) =
        ap (λ i. find_where (has_id i) db'.profiles) (sym id)
        ∙ ap (find_where (has_id p.id)) written
        ∙ updated_profile (bound at phone) db.profiles w.sender_profile_id (λ q. refl) owned in
      rw (stored, free, bound-phone p there opens, eq_refl phone) refl

-- Where no tier has limits of its own, the sender limits of a new transfer and those of the
-- eligibility check accept the same amounts of a sender above tier 0.
pub check_limits-agree :
    (env : Env) (input : InitiateTransferInput) (p : SenderProfile) (db : Db)
    → p.tier ≢ tier_0
    → db.tier_policies ≡ []
    → is_eligible (check_limits env.start_of_day p input.send_amount db)
      ≡ is_ok (check_sender_limits env input p db)
unfolding check_sender_limits
check_limits-agree env input p db verified none_set = rw none_set (ground (arith, verified))

abbrev new_policy : KycTier → ℤ → ℤ → String → TierLimitPolicy
new_policy tier per_transfer daily admin_id = record {
  tier = tier;
  per_transfer_limit = per_transfer;
  daily_limit = daily;
  updated_by = some admin_id;
}
