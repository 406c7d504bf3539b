-- ===== src/Db/Monad.antt =====
-- A service call: it reads and writes the database, and returns or throws. What was written before
-- a throw stays written, except inside `transaction`, which is `prisma.$transaction`.
use zongo_v.Prelude.{ℕ, Bool, true, false, Option, none, some, String}
use zongo_v.Db.Rows.{Db}

-- The codes of `DomainError`.
pub data Code : Type 0 where
  invalid_transaction_transition partner_callback_unknown partner_callback_conflict : Code
  invalid_transfer_amount transfer_idempotency_conflict pilot_initiation_paused : Code
  whatsapp_session_not_active whatsapp_transfer_already_active whatsapp_consent_required : Code
  pilot_allowlist_required phone_not_bound kyc_required user_blocked : Code
  beneficiary_not_available corridor_policy_invalid : Code
  transfer_amount_too_low transfer_amount_too_high : Code
  per_transfer_limit_exceeded daily_limit_exceeded pending_exposure_limit_exceeded : Code
  global_exposure_limit_exceeded ambiguous_exposure_limit_exceeded : Code
  recovery_capacity_exceeded partner_settlement_exposure_limit_exceeded : Code
  payout_retry_already_prepared : Code
  beneficiary_not_current beneficiary_phone_required transfer_not_retryable : Code
  invalid_limit verification_idempotency_conflict verification_decision_reason_required : Code
  verification_not_ready_for_approval verification_reviewer_not_independent : Code
  verified_phone_required verification_not_reviewable : Code
  verification_expiry_reason_required verification_not_approved : Code

-- What is thrown: a `DomainError`, the error of `…OrThrow` and of `update` for a missing row, that
-- of `create` for a unique key already taken, the HTTP error of the throttle with its delay,
-- the `ForbiddenException` and `UnauthorizedException` of the administration, or any other `Error`
-- with its message.
pub data Thrown : Type 0 where
  domain : Code → Thrown
  not_found : Thrown
  unique_violation : Thrown
  too_many_requests : ℕ → Thrown
  forbidden : Thrown
  unauthorized : Thrown
  plain : String → Thrown

pub data Result (A : Type 0) : Type 0 where
  ok : A → Result A
  err : Thrown → Result A

abbrev pub Action : Type 0 → Type 0
Action A = Db → Result A × Db

abbrev pub ⊤ : Type 0
⊤ = Unit

module _ {A : Type 0} where
  pub pure : A → Action A
  pure a db = (ok a, db)

  pub throw : Thrown → Action A
  throw e db = (err e, db)

  pub gets : (Db → A) → Action A
  gets f db = (ok (f db), db)

  -- A read that may throw.
  pub reads : (Db → Result A) → Action A
  reads f db = (f db, db)

  pub or_throw : Option A → Thrown → Action A
  or_throw none e db = (err e, db)
  or_throw (some a) e db = (ok a, db)

  -- What a transaction that began at `db` leaves, by how its body ended.
  abbrev pub commit : Db → Result A × Db → Result A × Db
  commit db (ok a, db') = (ok a, db')
  commit db (err e, db') = (err e, db)

  -- `prisma.$transaction(async (tx) => …)`: a throw undoes what the body wrote.
  unfoldable pub transaction : Action A → Action A
  transaction m db = commit db (m db)

  abbrev pub recover : (Thrown → Action A) → Result A × Db → Result A × Db
  recover handler (ok a, db) = (ok a, db)
  recover handler (err e, db) = handler e db

  -- `try { … } catch (error) { … }`
  unfoldable pub try_catch : Action A → (Thrown → Action A) → Action A
  try_catch m handler db = recover handler (m db)

pub modify : (Db → Db) → Action ⊤
modify f db = (ok tt, f db)

pub throw_if : Bool → Thrown → Action ⊤
throw_if true e db = (err e, db)
throw_if false e db = (ok tt, db)

pub when : Bool → Action ⊤ → Action ⊤
when true m db = m db
when false m db = (ok tt, db)

-- The rest of a call, by how its first part ended.
abbrev pub continue : {A B : Type 0} → (A → Action B) → Result A × Db → Result B × Db
continue f (ok a, db) = f a db
continue f (err e, db) = (err e, db)

infixl 5 ◌>>=◌ ◌>>◌
-- To open this is to open every action above.
unfoldable pub ◌>>=◌ : {A B : Type 0} → Action A → (A → Action B) → Action B
unfolding pure throw gets reads or_throw transaction try_catch modify throw_if when
◌>>=◌ m f db = continue f (m db)

abbrev pub ◌>>◌ : {B : Type 0} → Action ⊤ → Action B → Action B
m >> k = m >>= λ _. k
