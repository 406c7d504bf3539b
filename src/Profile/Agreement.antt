-- ===== src/Profile/Agreement.antt =====
-- How the eligibility check of zongo/libs/profile/src/sender-profile.service.ts and the initiation of
-- zongo/libs/transfer/src/transfer-initiation.service.ts agree.
use mathlib.Core.Option.{some-injective}
use text.Mathlib.TextPositions.{eq_refl}
use zongo_v.Prelude.{◌≡◌, ◌≢◌, sym, ap, ◌∙◌, inl, inr, true, false, some, [], String, arith}
use zongo_v.Db.Rows.{SenderProfile, KycTier, tier_0, Db}
use zongo_v.Db.Env.{Env}
use zongo_v.Db.Monad.{ok}
use zongo_v.Transfer.Input.{InitiateTransferInput}
use zongo_v.Transfer.Checks.{profile_of, is_tier_0}
use zongo_v.Transfer.Facts.{check_sender-facts}
use zongo_v.Transfer.Initiate.{Initiation, initiate}
use zongo_v.Transfer.Admission.{IsAdmitted, initiate-Outcome}
use zongo_v.Worker.Request.{phone_of_sender}
use zongo_v.Profile.Eligibility.{check_transfer_eligibility}
use zongo_v.Profile.Allowance.{says_eligible, is_ok, check_limits-agree}

not_tier_0 : (t : KycTier) → is_tier_0 t ≡ false → t ≢ tier_0
not_tier_0 t h e = let k : is_tier_0 t ≡ true = ap is_tier_0 e in ground arith

admitted-eligible :
    (env : Env) (input : InitiateTransferInput) (phone : String) (db : Db) (r : Initiation)
    → (db' : Db) (a : IsAdmitted env input db r db') → db.tier_policies ≡ []
    → phone_of_sender env (some a.profile) ≡ ok (some phone)
    → says_eligible (
        check_transfer_eligibility env env.start_of_day input.sender_profile_id phone
          input.send_amount db)
      ≡ true
unfolding check_transfer_eligibility
admitted-eligible env input phone db r db' a none_set bound =
    let (found, tier, free) = check_sender-facts env input db a.profile a.sender_ok in
    rw (found, free, bound, eq_refl phone, tier)
      (check_limits-agree env input a.profile db (not_tier_0 a.profile.tier tier) none_set
        ∙ ap is_ok a.limits_ok)

-- Where no tier has limits of its own, the sender of a new transfer was eligible for its amount from
-- the phone that the profile is bound to.
pub initiate-eligible_before :
    (env : Env) (input : InitiateTransferInput) (phone : String) (db : Db) (r : Initiation)
    → (db' : Db) → initiate env input db ≡ (ok r, db')
    → r.duplicate ≡ false
    → (p : SenderProfile) → profile_of input.sender_profile_id db.profiles ≡ some p
    → phone_of_sender env (some p) ≡ ok (some phone)
    → db.tier_policies ≡ []
    → says_eligible (
        check_transfer_eligibility env env.start_of_day input.sender_profile_id phone
          input.send_amount db)
      ≡ true
initiate-eligible_before env input phone db r db' returned new p found bound none_set =
    elim (initiate-Outcome env input db returned).1 [
      | inl (_, _, dup, _) ↦ absurd (ground arith)
      | inr a ↦
          let (there, _, _) = check_sender-facts env input db a.profile a.sender_ok in
          let same : a.profile ≡ p = some-injective _ _ (sym there ∙ found) in
          admitted-eligible env input phone db r db' a none_set
            (ap (λ q. phone_of_sender env (some q)) same ∙ bound)
    ]
