-- ===== src/Profile/Decisions.antt =====
-- What the decisions on a verification in zongo/libs/profile/src/sender-profile.service.ts write.
use zongo_v.Prelude.{
  ◌≡◌, ap, ◌∙◌, true, false, not, Option, some, String, find_where, update_where, truthy, get_or,
  arith,
}
use zongo_v.Db.Rows.{Verification, VerificationStatus, verification_eq, SenderProfile, Db}
use zongo_v.Db.Env.{Env}
use zongo_v.Db.Monad.{ok, ◌>>=◌}
use zongo_v.Db.Inversion.{reads-ok, throw_if-ok, transaction-ok, lookup-ok}
use zongo_v.Worker.Request.{phone_of_sender}
use zongo_v.Profile.Accounts.{has_id}
use zongo_v.Profile.Review.{
  ApproveVerificationInput, ResolveVerificationInput, Approval, is_case, case_of, owner_of,
  is_collector, verified_phone, approved, resolved, expired, lapsed, bound, update_case,
  create_replacement, bind_phone, is_reviewable, close_case, lapse, grant, decide_approval,
  approve_verification, decide_resolution, resolve_verification, decide_expiry, expire_verification,
}

-- The verifications and the profiles after a decision on one of them.
abbrev pub Decided :
    (Verification → Verification)
    → (SenderProfile → SenderProfile)
    → Verification
    → SenderProfile
    → Db
    → Db
    → Type 0
Decided f g v p db db' =
    (db'.verifications ≡ update_where (is_case v.id) f db.verifications)
    × (db'.profiles ≡ update_where (has_id p.id) g db.profiles)

grant-Decided :
    (env : Env) (input : ApproveVerificationInput) (v : Verification) (p : SenderProfile)
    → (phone : String) (db : Db) {r : Approval} {db' : Db}
    → grant env input v p phone db ≡ (ok r, db')
    → Decided (approved env input) (bound env phone) v p db db'
unfolding grant update_case create_replacement bind_phone ◌>>=◌
grant-Decided env input v p phone db h = ground (arith, h, phone_of_sender env (some p))

-- The case that a decision is on, and its owner.
pub record IsCase (id : String) (db : Db) (v : Verification) (p : SenderProfile) : Type 0 where
  pub case_found : find_where (is_case id) db.verifications ≡ some v
  pub owner_found : find_where (has_id v.sender_profile_id) db.profiles ≡ some p

-- What an approval needed, and what it wrote.
pub record IsApproval (env : Env) (input : ApproveVerificationInput) (db db' : Db) : Type 0 where
  pub v : Verification
  pub p : SenderProfile
  pub phone : String
  pub on : IsCase input.verification_id db v p
  pub reasoned : env.is_blank input.decision_reason ≡ false
  pub ready : v.status ≡ VerificationStatus.human_review
  pub independent : is_collector v input.reviewer ≡ false
  pub proved : verified_phone env v ≡ ok (some phone)
  pub written : Decided (approved env input) (bound env phone) v p db db'

status-eq : (a b : VerificationStatus) → not (verification_eq a b) ≡ false → a ≡ b
status-eq a b h = ground arith

truthy-some : (o : Option String) → not (truthy o) ≡ false → o ≡ some (get_or o "")
truthy-some o h = ground arith

pub approve_verification-IsApproval :
    (env : Env) (input : ApproveVerificationInput) (db : Db) {r : Approval} {db' : Db}
    → approve_verification env input db ≡ (ok r, db')
    → IsApproval env input db db'
unfolding approve_verification decide_approval case_of owner_of
approve_verification-IsApproval env input db h =
    let (reasoned, h1) = throw_if-ok _ _ _ db h in
    let (v, found, h2) =
      lookup-ok (λ db. find_where (is_case input.verification_id) db.verifications) _ _ db
        (transaction-ok _ db h1) in
    let (p, owned, h3) =
      lookup-ok (λ db. find_where (has_id v.sender_profile_id) db.profiles) _ _ db h2 in
    let (ready, h4) = throw_if-ok _ _ _ db h3 in
    let (independent, h5) = throw_if-ok _ _ _ db h4 in
    let (phone, proved, h6) = reads-ok (λ db. verified_phone env v) _ db h5 in
    let (given, h7) = throw_if-ok _ _ _ db h6 in
    record {
      v = v;
      p = p;
      phone = get_or phone "";
      on = record { case_found = found; owner_found = owned };
      reasoned = reasoned;
      ready = status-eq _ _ ready;
      independent = independent;
      proved = proved ∙ ap ok (truthy-some phone given);
      written = grant-Decided env input v p (get_or phone "") db h7;
    }

close_case-writes :
    (env : Env) (input : ResolveVerificationInput) (v : Verification) (db : Db)
    → {w : Verification} {db' : Db} → close_case env input v db ≡ (ok w, db')
    → (db'.verifications ≡ update_where (is_case v.id) (resolved env input) db.verifications)
      × (db'.profiles ≡ db.profiles)
unfolding close_case update_case ◌>>=◌
close_case-writes env input v db h = ground arith

-- What a resolution needed, and what it wrote.
pub record IsResolution (env : Env) (input : ResolveVerificationInput) (db db' : Db) : Type 0 where
  pub v : Verification
  pub found : find_where (is_case input.verification_id) db.verifications ≡ some v
  pub reviewable : is_reviewable v.status ≡ true
  pub independent : is_collector v input.reviewer ≡ false
  pub written :
      db'.verifications ≡ update_where (is_case v.id) (resolved env input) db.verifications
  pub profiles_kept : db'.profiles ≡ db.profiles

pub resolve_verification-IsResolution :
    (env : Env) (input : ResolveVerificationInput) (db : Db) {w : Verification} {db' : Db}
    → resolve_verification env input db ≡ (ok w, db')
    → IsResolution env input db db'
unfolding resolve_verification decide_resolution case_of
resolve_verification-IsResolution env input db h =
    let (_, h1) = throw_if-ok _ _ _ db h in
    let (v, found, h2) =
      lookup-ok (λ db. find_where (is_case input.verification_id) db.verifications) _ _ db
        (transaction-ok _ db h1) in
    let (reviewable, h3) = throw_if-ok _ _ _ db h2 in
    let (independent, h4) = throw_if-ok _ _ _ db h3 in
    record {
      v = v;
      found = found;
      reviewable = ground arith;
      independent = independent;
      written = (close_case-writes env input v db h4).0;
      profiles_kept = (close_case-writes env input v db h4).1;
    }

lapse-writes :
    (env : Env) (reason : String) (v : Verification) (p : SenderProfile) (db : Db)
    → {w : Verification} {db' : Db} → lapse env reason v p db ≡ (ok w, db')
    → Decided (expired env reason) lapsed v p db db'
      × (db'.identities ≡ db.identities)
      × (db'.transactions ≡ db.transactions)
unfolding lapse update_case ◌>>=◌
lapse-writes env reason v p db h = ground arith

-- What an expiry needed, and what it wrote.
pub record IsExpiry (env : Env) (id reason : String) (db db' : Db) : Type 0 where
  pub v : Verification
  pub p : SenderProfile
  pub on : IsCase id db v p
  pub was_approved : v.status ≡ VerificationStatus.approved
  pub written : Decided (expired env reason) lapsed v p db db'
  pub rest_kept : (db'.identities ≡ db.identities) × (db'.transactions ≡ db.transactions)

pub expire_verification-IsExpiry :
    (env : Env) (id reason : String) (db : Db) {w : Verification} {db' : Db}
    → expire_verification env id reason db ≡ (ok w, db')
    → IsExpiry env id reason db db'
unfolding expire_verification decide_expiry case_of owner_of
expire_verification-IsExpiry env id reason db h =
    let (_, h1) = throw_if-ok _ _ _ db h in
    let (v, found, h2) =
      lookup-ok (λ db. find_where (is_case id) db.verifications) _ _ db (transaction-ok _ db h1) in
    let (p, owned, h3) =
      lookup-ok (λ db. find_where (has_id v.sender_profile_id) db.profiles) _ _ db h2 in
    let (approved, h4) = throw_if-ok _ _ _ db h3 in
    record {
      v = v;
      p = p;
      on = record { case_found = found; owner_found = owned };
      was_approved = status-eq _ _ approved;
      written = (lapse-writes env reason v p db h4).0;
      rest_kept = let (_, i, t) = lapse-writes env reason v p db h4 in (i, t);
    }
