-- ===== src/Profile/Standing.antt =====
-- The life of a verification in zongo/libs/profile/src/sender-profile.service.ts.
use text.Mathlib.TextEquality.{eq_iff}
use mathlib.Core.Option.{some-injective}
use zongo_v.Prelude.{
  ◌≡◌, refl, sym, ap, subst, ◌∙◌, ◌⊎◌, inl, inr, Bool, true, false, Option, none, some, List, [],
  ◌∷◌, ◌++◌, String, find_where, update_where, any_where, str_eq, find_where_holds,
  find_where-append_some, find_where-update_selected, find_where-update_unselected, Bool-cases,
  arith,
}
use zongo_v.Db.Rows.{Verification, VerificationStatus, SenderProfile, Db}
use zongo_v.Db.Env.{Env}
use zongo_v.Db.Monad.{Result, ok, ◌>>=◌}
use zongo_v.Db.Inversion.{guarded-cases}
use zongo_v.Profile.Accounts.{has_id}
use zongo_v.Profile.Evidence.{
  TechnicalVerificationInput, keyed, repeats, new_verification, insert_verification, answer_case,
  record_technical_verification,
}
use zongo_v.Profile.Review.{
  ApproveVerificationInput, ResolveVerificationInput, Decision, decided, is_case, is_reviewable,
  approved, resolved, expired, approve_verification, resolve_verification, expire_verification,
  decide_approval, decide_resolution, decide_expiry,
}
use zongo_v.Profile.Decisions.{
  approve_verification-IsApproval, resolve_verification-IsResolution, expire_verification-IsExpiry,
}

-- The operations on verifications.
pub data Operation : Type 0 where
  submit : TechnicalVerificationInput → Operation
  approve : ApproveVerificationInput → Operation
  resolve : ResolveVerificationInput → Operation
  expire : String → String → Operation

-- The database after an operation, whether it returns or throws.
abbrev pub perform : Env → Operation → Db → Db
perform env (submit input) db = (record_technical_verification env input db).1
perform env (approve input) db = (approve_verification env input db).1
perform env (resolve input) db = (resolve_verification env input db).1
perform env (expire id reason) db = (expire_verification env id reason db).1

-- Operations, each with its own clock and identifiers.
abbrev pub perform_all : List (Env × Operation) → Db → Db
perform_all [] db = db
perform_all ((env, op) ∷ ops) db = perform_all ops (perform env op db)

-- The steps of a verification.
pub data Step : VerificationStatus → VerificationStatus → Type 0 where
  approval : Step VerificationStatus.human_review VerificationStatus.approved
  technical_end : (d : Decision) → Step VerificationStatus.technical_review (decided d)
  human_end : (d : Decision) → Step VerificationStatus.human_review (decided d)
  expiry : Step VerificationStatus.approved VerificationStatus.expired

abbrev pub Change : Verification → Verification → Type 0
Change v w = (w ≡ v) ⊎ Step v.status w.status

-- What an operation makes of the verification with an identifier.
abbrev pub Follows : Db → String → Verification → Type 0
Follows db id v =
    (w : Verification) × (find_where (is_case id) db.verifications ≡ some w) × Change v w

reviewable-Step :
    (s : VerificationStatus) (d : Decision) → is_reviewable s ≡ true → Step s (decided d)
reviewable-Step VerificationStatus.pending d h = absurd (ground arith)
reviewable-Step VerificationStatus.technical_review d h = Step.technical_end d
reviewable-Step VerificationStatus.human_review d h = Step.human_end d
reviewable-Step VerificationStatus.approved d h = absurd (ground arith)
reviewable-Step VerificationStatus.rejected d h = absurd (ground arith)
reviewable-Step VerificationStatus.escalated d h = absurd (ground arith)
reviewable-Step VerificationStatus.expired d h = absurd (ground arith)

module _ (db db' : Db) (id other : String) (f : Verification → Verification) where
  -- A decision on the verification that one identifier finds, as any other identifier finds it.
  decided-Follows :
      {v w : Verification}
      → ((x : Verification) → (f x).id ≡ x.id)
      → find_where (is_case id) db.verifications ≡ some w
      → db'.verifications ≡ update_where (is_case w.id) f db.verifications
      → Step w.status (f w).status
      → find_where (is_case other) db.verifications ≡ some v
      → Follows db' other v
  decided-Follows {v} {w} keeps found written step found' = elim (Bool-cases (is_case w.id v)) [
    | inl same ↦
        let v_id : v.id ≡ other =
          (eq_iff v.id other).0 (find_where_holds (is_case other) db.verifications found') in
        let w_id : w.id ≡ id =
          (eq_iff w.id id).0 (find_where_holds (is_case id) db.verifications found) in
        let one : other ≡ id = sym v_id ∙ (eq_iff v.id w.id).0 same ∙ w_id in
        let here : v ≡ w =
          some-injective _ _
            (sym found' ∙ ap (λ i. find_where (is_case i) db.verifications) one ∙ found) in
        (
          f v,
          ap (find_where (is_case other)) written
              ∙ find_where-update_selected (is_case other) (is_case w.id) f db.verifications
                  (λ x. ap (λ i. str_eq i other) (keeps x)) found' same,
          inr (subst (λ x. Step x.status (f x).status) (sym here) step),
        )
    | inr apart ↦ (
      v,
      ap (find_where (is_case other)) written
          ∙ find_where-update_unselected (is_case other) (is_case w.id) f db.verifications
              (λ x. ap (λ i. str_eq i other) (keeps x)) found' apart,
      inl refl,
    )
  ]

-- The verifications stay, or one is added.
abbrev pub Grows : Db → Db → Type 0
Grows db db' =
    (db'.verifications ≡ db.verifications)
    ⊎ ((v : Verification) × (db'.verifications ≡ db.verifications ++ v ∷ []))

insert_verification-Grows :
    (env : Env) (input : TechnicalVerificationInput) (db : Db) (o : Option SenderProfile)
    → find_where (has_id input.sender_profile_id) db.profiles ≡ o
    → Grows db (insert_verification env input db).1
unfolding insert_verification ◌>>=◌
insert_verification-Grows env input db none e = inl (rw e refl)
insert_verification-Grows env input db (some p) e =
    elim (Bool-cases (any_where (repeats (new_verification env input p.id)) db.verifications)) [
      | inl taken ↦ inl (rw (e, taken) refl)
      | inr fresh ↦ inr (new_verification env input p.id, rw (e, fresh) (ground arith))
    ]

answer_case-Grows :
    (env : Env) (input : TechnicalVerificationInput) (o : Option Verification) (db : Db)
    → Grows db (answer_case env input o db).1
unfolding ◌>>=◌
answer_case-Grows env input none db = insert_verification-Grows env input db _ refl
answer_case-Grows env input (some v) db = inl (ground arith)

Grows-Follows :
    (db db' : Db) (id : String) {v : Verification}
    → Grows db db'
    → find_where (is_case id) db.verifications ≡ some v
    → Follows db' id v
Grows-Follows db db' id {v} (inl same) found =
    (v, ap (find_where (is_case id)) same ∙ found, inl refl)
Grows-Follows db db' id {v} (inr (w, more)) found = (
  v,
  ap (find_where (is_case id)) more
      ∙ find_where-append_some (is_case id) db.verifications (w ∷ []) found,
  inl refl,
)

submit-Grows :
    (env : Env) (input : TechnicalVerificationInput) (db : Db)
    → Grows db (record_technical_verification env input db).1
unfolding record_technical_verification ◌>>=◌
submit-Grows env input db =
    answer_case-Grows env input (find_where (keyed input.idempotency_key) db.verifications) db

unchanged-Follows :
    (db db' : Db) (id : String) {v : Verification}
    → db' ≡ db
    → find_where (is_case id) db.verifications ≡ some v
    → Follows db' id v
unchanged-Follows db db' id same found =
    Grows-Follows db db' id (inl (ap (λ x. x.verifications) same)) found

-- A decision that throws leaves the database as it was.
abbrev Ended : {A : Type 0} → Result A × Db → Db → Type 0
Ended {A} r db = (r.1 ≡ db) ⊎ ((a : A) × (r ≡ (ok a, r.1)))

approve_verification-Ended :
    (env : Env) (input : ApproveVerificationInput) (db : Db)
    → Ended (approve_verification env input db) db
unfolding approve_verification
approve_verification-Ended env input db =
    guarded-cases (env.is_blank input.decision_reason) _ (decide_approval env input) db

resolve_verification-Ended :
    (env : Env) (input : ResolveVerificationInput) (db : Db)
    → Ended (resolve_verification env input db) db
unfolding resolve_verification
resolve_verification-Ended env input db =
    guarded-cases (env.is_blank input.decision_reason) _ (decide_resolution env input) db

expire_verification-Ended :
    (env : Env) (id reason : String) (db : Db) → Ended (expire_verification env id reason db) db
unfolding expire_verification
expire_verification-Ended env id reason db =
    guarded-cases (env.is_blank reason) _ (decide_expiry env id reason) db

-- Each operation leaves a verification as it is, or takes it one step further: from human review to
-- approved, from a review to rejected or escalated, or from approved to expired.
pub perform-Follows :
    (env : Env) (op : Operation) (db : Db) (id : String) (v : Verification)
    → find_where (is_case id) db.verifications ≡ some v
    → Follows (perform env op db) id v
perform-Follows env (submit input) db id v found =
    Grows-Follows db (perform env (submit input) db) id (submit-Grows env input db) found
perform-Follows env (approve input) db id v found = elim (approve_verification-Ended env input db) [
  | inl same ↦ unchanged-Follows db (perform env (approve input) db) id same found
  | inr (r, h) ↦
      let a = approve_verification-IsApproval env input db h in
      decided-Follows db (perform env (approve input) db) input.verification_id id
        (approved env input) (λ x. refl) a.on.case_found a.written.0
        (subst (λ s. Step s VerificationStatus.approved) (sym a.ready) Step.approval) found
]
perform-Follows env (resolve input) db id v found = elim (resolve_verification-Ended env input db) [
  | inl same ↦ unchanged-Follows db (perform env (resolve input) db) id same found
  | inr (r, h) ↦
      let a = resolve_verification-IsResolution env input db h in
      decided-Follows db (perform env (resolve input) db) input.verification_id id
        (resolved env input) (λ x. refl) a.found a.written
        (reviewable-Step a.v.status input.decision a.reviewable) found
]
perform-Follows env (expire case reason) db id v found =
    elim (expire_verification-Ended env case reason db) [
      | inl same ↦ unchanged-Follows db (perform env (expire case reason) db) id same found
      | inr (r, h) ↦
          let a = expire_verification-IsExpiry env case reason db h in
          decided-Follows db (perform env (expire case reason) db) case id (expired env reason)
            (λ x. refl) a.on.case_found a.written.0
            (subst (λ s. Step s VerificationStatus.expired) (sym a.was_approved) Step.expiry) found
    ]

-- The statuses that no step leaves.
abbrev pub is_final : VerificationStatus → Bool
is_final VerificationStatus.rejected = true
is_final VerificationStatus.escalated = true
is_final VerificationStatus.expired = true
is_final VerificationStatus.pending = false
is_final VerificationStatus.technical_review = false
is_final VerificationStatus.human_review = false
is_final VerificationStatus.approved = false

Step-source : {s t : VerificationStatus} → Step s t → is_final s ≡ false
Step-source Step.approval = refl
Step-source (Step.technical_end d) = refl
Step-source (Step.human_end d) = refl
Step-source Step.expiry = refl

Change-final : {v w : Verification} → is_final v.status ≡ true → Change v w → w ≡ v
Change-final h (inl same) = same
Change-final h (inr step) = absurd (cc (h, Step-source step))

-- A verification that was rejected, escalated or expired stays as it is, whatever operations follow.
pub perform_all_final :
    (ops : List (Env × Operation)) (db : Db) (id : String) (v : Verification)
    → find_where (is_case id) db.verifications ≡ some v
    → is_final v.status ≡ true
    → find_where (is_case id) (perform_all ops db).verifications ≡ some v
perform_all_final [] db id v found final = found
perform_all_final ((env, op) ∷ ops) db id v found final =
    let (w, found', change) = perform-Follows env op db id v found in
    perform_all_final ops (perform env op db) id v (found' ∙ ap some (Change-final final change))
      final
