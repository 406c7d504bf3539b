-- ===== src/Transfer/Admission.antt =====
-- What a successful `initiate` of zongo/libs/transfer/src/transfer-initiation.service.ts has checked
-- and written.
use zongo_v.Prelude.{
  true, false, ◌||◌, ◌≡◌, refl, ◌⊎◌, inl, inr, Option, none, some, arith, find_where, Bool-cases,
}
use zongo_v.Prelude.Int.{pos, leb_ℤ}
use zongo_v.Db.Rows.{Transaction, Session, SenderProfile, Db}
use zongo_v.Db.Env.{Env}
use zongo_v.Db.Monad.{Result, ok, ◌>>=◌}
use zongo_v.Db.Inversion.{reads-ok, gets-ok, throw_if-ok, transaction-ok}
use zongo_v.Transfer.Input.{InitiateTransferInput}
use zongo_v.Transfer.Checks.{
  check_controls, check_session, check_sender, check_beneficiary, check_corridor,
  check_sender_limits,
}
use zongo_v.Transfer.Exposure.{check_exposure}
use zongo_v.Transfer.Initiate.{
  Initiation, is_replay, keyed_by, commit_transfer, admit, replay_or_admit, initiate,
}

module _ (env : Env) (input : InitiateTransferInput) (db : Db) where
  -- The checks that a new transfer passed, and the writes that it made.
  pub record IsAdmitted (r : Initiation) (db' : Db) : Type 0 where
    pub session : Session
    pub profile : SenderProfile
    pub fresh_key : find_where (keyed_by input.idempotency_key) db.transactions ≡ none
    pub controls : check_controls db ≡ ok tt
    pub session_ok : check_session env input db ≡ ok session
    pub sender_ok : check_sender env input db ≡ ok profile
    pub beneficiary_ok : check_beneficiary input profile db ≡ ok tt
    pub corridor_ok : check_corridor input db ≡ ok tt
    pub limits_ok : check_sender_limits env input profile db ≡ ok tt
    pub exposure_ok : check_exposure env input db ≡ ok tt
    pub written : commit_transfer env input session profile db ≡ (ok r, db')

  admit-IsAdmitted :
      (r : Initiation) (db' : Db)
      → find_where (keyed_by input.idempotency_key) db.transactions ≡ none
      → admit env input db ≡ (ok r, db')
      → IsAdmitted r db'
  unfolding admit
  admit-IsAdmitted r db' fresh h =
      let (_, controls, h1) = reads-ok check_controls _ db h in
      let (session, session_ok, h2) = reads-ok (check_session env input) _ db h1 in
      let (profile, sender_ok, h3) = reads-ok (check_sender env input) _ db h2 in
      let (_, beneficiary_ok, h4) = reads-ok (check_beneficiary input profile) _ db h3 in
      let (_, corridor_ok, h5) = reads-ok (check_corridor input) _ db h4 in
      let (_, limits_ok, h6) = reads-ok (check_sender_limits env input profile) _ db h5 in
      let (_, exposure_ok, h7) = reads-ok (check_exposure env input) _ db h6 in
      record {
        session = session;
        profile = profile;
        fresh_key = fresh;
        controls = controls;
        session_ok = session_ok;
        sender_ok = sender_ok;
        beneficiary_ok = beneficiary_ok;
        corridor_ok = corridor_ok;
        limits_ok = limits_ok;
        exposure_ok = exposure_ok;
        written = h7;
      }

  -- What `initiate` has done when it returns: answered a replay from the stored transfer and changed
  -- nothing, or admitted a new one.
  abbrev pub Outcome : Initiation → Db → Type 0
  Outcome r db' =
      ((find_where (keyed_by input.idempotency_key) db.transactions ≡ some r.accepted)
        × (is_replay input r.accepted ≡ true)
        × (r.duplicate ≡ true)
        × (db' ≡ db))
      ⊎ IsAdmitted r db'

  replay_or_admit-Outcome :
      (o : Option Transaction) {r : Initiation} {db' : Db}
      → find_where (keyed_by input.idempotency_key) db.transactions ≡ o
      → replay_or_admit env input o db ≡ (ok r, db')
      → Outcome r db'
  unfolding ◌>>=◌
  replay_or_admit-Outcome none e h = inr (admit-IsAdmitted _ _ e h)
  replay_or_admit-Outcome (some t) {r} {db'} e h = elim (Bool-cases (is_replay input t)) [
    | inl same ↦
        let answer : ◌≡◌ {A = Result Initiation × Db}
            (ok (record { duplicate = true; accepted = t }), db) (ok r, db') =
          rw same at h in
        inl (ground arith)
    | inr other ↦ absurd (ground arith)
  ]

  pub initiate-Outcome :
      {r : Initiation} {db' : Db}
      → initiate env input db ≡ (ok r, db')
      → (leb_ℤ input.send_amount (pos 0) || leb_ℤ input.payout_amount (pos 0) ≡ false)
        × Outcome r db'
  unfolding initiate
  initiate-Outcome h =
      let (positive, h1) = throw_if-ok _ _ _ db h in
      (positive, replay_or_admit-Outcome _ refl (gets-ok _ _ db (transaction-ok _ db h1)))
