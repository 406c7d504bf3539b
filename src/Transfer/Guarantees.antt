-- ===== src/Transfer/Guarantees.antt =====
-- What `initiate` of zongo/libs/transfer/src/transfer-initiation.service.ts guarantees.
use text.Mathlib.TextPositions.{eq_refl}
use zongo_v.Prelude.{
  ℕ, ◌+◌, ◌≤◌, true, false, ◌≡◌, refl, inl, inr, some, [], ◌∷◌, ◌++◌, arith, find_where,
  update_where, template, count_where, count_where-append, str_eq, find_where-append_none,
  find_where-update_selected,
}
use zongo_v.Prelude.Int.{ℤ, pos, ◌+ℤ◌, ◌≤ℤ◌, sum_where, sum_where-append, int_laws}
use zongo_v.Db.Rows.{
  Transaction, WorkerJob, JobType, JobStatus, Session, SenderProfile, Beneficiary, ControlKey,
  ExposurePolicy, Db,
}
use zongo_v.Db.Env.{Env}
use zongo_v.Db.Monad.{ok, err, Thrown}
use zongo_v.Db.Invariant.{transaction-rolls_back}
use zongo_v.Domain.Lifecycle.{TransferStatus}
use zongo_v.Transfer.Input.{InitiateTransferInput}
use zongo_v.Transfer.Checks.{
  enabled_in, owns_key, chat_key, profile_of, is_tier_0, is_blocked, identity_of, beneficiary_by,
  per_transfer_limit, daily_limit, sent_today,
}
use zongo_v.Exposure.Monitor.{is_pending, since}
use zongo_v.Transfer.Initiate.{Initiation, keyed_by, new_transfer, collection_job, initiate}
use zongo_v.Transfer.Admission.{IsAdmitted, initiate-Outcome}
use zongo_v.Transfer.Facts.{
  check_session-facts, check_sender-facts, check_beneficiary-facts, check_sender_limits-facts,
  check_controls-facts, check_policy-facts,
}
use zongo_v.Transfer.Writes.{
  positive, not_reached, not_exceeded, replay_returns, new_transfer-is_replay,
  commit_transfer-written, throw_if-rolls_back,
}

-- A request that throws, for whatever reason, leaves the database as it was.
pub initiate-rolls_back :
    (env : Env) (input : InitiateTransferInput) (db : Db) (e : Thrown)
    → (initiate env input db).0 ≡ err e
    → (initiate env input db).1 ≡ db
unfolding initiate
initiate-rolls_back env input db e = throw_if-rolls_back _ _ e _ db (transaction-rolls_back _ db)

-- A job that is the collection of a transfer and that no worker took yet.
abbrev pub IsCollectionOf : Transaction → WorkerJob → Type 0
IsCollectionOf t j =
    (j.job_type ≡ JobType.collection)
    × (j.status ≡ JobStatus.pending)
    × (j.attempts ≡ 0)
    × (j.transaction_id ≡ some t.id)
    × (j.transaction_reference ≡ t.reference)
    × (j.dedup_key ≡ template (t.reference ∷ ":COLLECTION" ∷ []))

-- A call that returned a new transfer, with all that it checked and wrote.
module _ (env : Env) (input : InitiateTransferInput) (db : Db) (r : Initiation) (db' : Db)
    (returned : initiate env input db ≡ (ok r, db')) (new : r.duplicate ≡ false) where
  admitted : IsAdmitted env input db r db'
  admitted = elim (initiate-Outcome env input db returned).1 [
    | inl (_, _, dup, _) ↦ absurd (ground arith)
    | inr a ↦ a
  ]

  writes :
      let t = new_transfer env input admitted.profile in
      (r ≡ record { duplicate = false; accepted = t })
      × (db'.transactions ≡ db.transactions ++ t ∷ [])
      × (db'.jobs ≡ db.jobs ++ collection_job env t ∷ [])
      × (db'.sessions
          ≡ update_where
              (λ s. str_eq s.id admitted.session.id)
              (λ s. record s { transfer_id = some t.id })
              db.sessions)
  writes =
      commit_transfer-written env input admitted.session admitted.profile db r db' admitted.written

  -- A new transfer is stored once, as INITIATED with the requested amounts and no earlier row
  -- changed; exactly one job is queued, the pending collection of that transfer, under the key that
  -- its reference gives; and the session of the chat owns it.
  pub initiate-stores :
      (db'.transactions ≡ db.transactions ++ r.accepted ∷ [])
      × (r.accepted.status ≡ TransferStatus.initiated)
      × (r.accepted.send_amount ≡ input.send_amount)
      × (r.accepted.payout_amount ≡ some input.payout_amount)
      × ((j : WorkerJob) × (db'.jobs ≡ db.jobs ++ j ∷ []) × IsCollectionOf r.accepted j)
      × ((s : Session) × (find_where (owns_key (chat_key input.chat_id)) db'.sessions ≡ some s)
          × (s.transfer_id ≡ some r.accepted.id))
  initiate-stores =
      let (same, transactions, jobs, sessions) = writes in
      let s = admitted.session in
      let t = new_transfer env input admitted.profile in
      let (found, _, _) = check_session-facts env input db s admitted.session_ok in
      let owner =
        find_where-update_selected (owns_key (chat_key input.chat_id)) (λ u. str_eq u.id s.id)
          (λ u. record u { transfer_id = some t.id }) db.sessions (λ u. refl) found
          (eq_refl s.id) in
      rw same (
        transactions,
        refl,
        refl,
        refl,
        (collection_job env t, jobs, (refl, refl, refl, refl, refl, refl)),
        (record s { transfer_id = some t.id }, rw sessions owner, refl),
      )

  -- A new transfer is positive, within the sender's limit for one transfer, and keeps the sender's
  -- total since the start of the day, itself included, within the sender's daily limit, where the
  -- day starts no later than now.
  pub initiate-within_limits :
      env.start_of_day ≤ env.now
      → (p : SenderProfile) × (per_transfer : ℤ) × (daily : ℤ) × (profile_of input.sender_profile_id
            db.profiles
          ≡ some p)
        × (per_transfer_limit p ≡ some per_transfer)
        × (daily_limit p ≡ some daily)
        × (pos 1 ≤ℤ input.send_amount)
        × (input.send_amount ≤ℤ per_transfer)
        × (sum_where (sent_today env.start_of_day p.user_id) (λ t. t.send_amount) db'.transactions
            ≤ℤ daily)
  initiate-within_limits today =
      let p = admitted.profile in
      let t = new_transfer env input p in
      let (_, transactions, _, _) = writes in
      let (sender, _, _) = check_sender-facts env input db p admitted.sender_ok in
      let (per_transfer, daily, e, f, one, day) =
        check_sender_limits-facts env input db p admitted.limits_ok in
      let counted : sent_today env.start_of_day p.user_id t ≡ true =
        ground (arith, eq_refl p.user_id) in
      let total : ◌≡◌
          (sum_where (sent_today env.start_of_day p.user_id) (λ u. u.send_amount) db'.transactions)
          (sum_where (sent_today env.start_of_day p.user_id) (λ u. u.send_amount) db.transactions
            +ℤ input.send_amount) =
        rw (transactions, sum_where-append, counted) (omega int_laws) in
      (
        p,
        per_transfer,
        daily,
        sender,
        e,
        f,
        positive input.send_amount input.payout_amount (initiate-Outcome env input db returned).0,
        one,
        rw total day,
      )

  -- The sender of a new transfer is verified and not blocked, and its beneficiary is a current one of
  -- this sender in this corridor; and the three controls of a new transfer are enabled.
  pub initiate-eligible :
      (p : SenderProfile) × (b : Beneficiary) × (profile_of input.sender_profile_id db.profiles
        ≡ some p)
      × (is_tier_0 p.tier ≡ false)
      × (is_blocked (identity_of p.user_id db.identities) ≡ false)
      × (beneficiary_by input.beneficiary_id db.beneficiaries ≡ some b)
      × (b.user_id ≡ p.user_id)
      × (b.corridor_id ≡ input.corridor_id)
      × (b.is_current ≡ true)
      × (enabled_in db.controls ControlKey.global ≡ true)
      × (enabled_in db.controls ControlKey.initiation ≡ true)
      × (enabled_in db.controls ControlKey.corridor_provider ≡ true)
  initiate-eligible =
      let (sender, tier, blocked) = check_sender-facts env input db _ admitted.sender_ok in
      let (b, found, owner, corridor, current) =
        check_beneficiary-facts env input db _ admitted.beneficiary_ok in
      let (g, i, c) = check_controls-facts env input db admitted.controls in
      (admitted.profile, b, sender, tier, blocked, found, owner, corridor, current, g, i, c)

  -- Under an exposure policy a new transfer keeps the number of pending transfers, itself included,
  -- within its limit, and the amount sent since the start of the day within the global limit, where
  -- the policy has these limits and the day starts no later than now.
  pub initiate-within_exposure :
      (policy : ExposurePolicy) {pending : ℕ} {daily : ℤ}
      → db.exposure_policy ≡ some policy
      → policy.max_pending_transfers ≡ some pending
      → policy.global_daily_send ≡ some daily
      → env.start_of_day ≤ env.now
      → (count_where is_pending db'.transactions ≤ pending)
        × (sum_where (since env.start_of_day) (λ t. t.send_amount) db'.transactions ≤ℤ daily)
  initiate-within_exposure policy e p d today =
      let t = new_transfer env input admitted.profile in
      let (_, transactions, _, _) = writes in
      let (room, day) = check_policy-facts env input db policy e admitted.exposure_ok in
      let counted : since env.start_of_day t ≡ true = ground arith in
      let total : ◌≡◌ (sum_where (since env.start_of_day) (λ u. u.send_amount) db'.transactions) (
          sum_where (since env.start_of_day) (λ u. u.send_amount) db.transactions
          +ℤ input.send_amount) =
        rw (transactions, sum_where-append, counted) (omega int_laws) in
      let count : ◌≡◌ (count_where is_pending db'.transactions)
          (count_where is_pending db.transactions + 1) =
        rw (transactions, count_where-append) (omega arith) in
      (rw count (not_reached _ _ p room), rw total (not_exceeded _ _ d day))

  -- After a call that returned a new transfer, the same request again, whatever the time and the new identifiers, returns the transfer that is
  -- stored, marked as a duplicate, and changes nothing.
  pub initiate-replays :
      (env' : Env)
      → initiate env' input db' ≡ (ok (record { duplicate = true; accepted = r.accepted }), db')
  initiate-replays env' =
      let t = new_transfer env input admitted.profile in
      let (same, transactions, _, _) = writes in
      let found : find_where (keyed_by input.idempotency_key) db'.transactions ≡ some t = rw (
        transactions,
        find_where-append_none (keyed_by input.idempotency_key) db.transactions (t ∷ [])
            admitted.fresh_key,
        eq_refl input.idempotency_key,
      ) in
      rw same (
        replay_returns env' input db' t (initiate-Outcome env input db returned).0 found
          (new_transfer-is_replay env input admitted.profile))
