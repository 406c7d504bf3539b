-- ===== src/Transfer/Writes.antt =====
-- What the guards and the writes of `initiate` in
-- zongo/libs/transfer/src/transfer-initiation.service.ts amount to.
use text.Mathlib.TextPositions.{eq_refl}
use zongo_v.Prelude.{
  ℕ, ◌+◌, ◌≤◌, Bool, true, false, ◌||◌, ◌≡◌, refl, Option, some, [], ◌∷◌, ◌++◌, arith, find_where,
  update_where, str_eq,
}
use zongo_v.Prelude.Int.{ℤ, pos, ◌≤ℤ◌, leb_ℤ, eq_ℤ_refl}
use zongo_v.Db.Rows.{Transaction, Session, SenderProfile, Db}
use zongo_v.Db.Env.{Env}
use zongo_v.Db.Monad.{Action, ok, err, Thrown, transaction, throw_if, ◌>>=◌, ◌>>◌}
use zongo_v.Transfer.Input.{InitiateTransferInput}
use zongo_v.Transfer.Exposure.{reaches, exceeds}
use zongo_v.Transfer.Initiate.{
  Initiation, is_replay, keyed_by, new_transfer, collection_job, commit_transfer, initiate,
}

pub positive : (a b : ℤ) → (leb_ℤ a (pos 0) || leb_ℤ b (pos 0)) ≡ false → pos 1 ≤ℤ a
positive a b h = ground arith

pub not_reached :
    (limit : Option ℕ) (count : ℕ) {n : ℕ}
    → limit ≡ some n
    → reaches limit count ≡ false
    → count + 1 ≤ n
not_reached limit count {n} e h =
    let h' : reaches (some n) count ≡ false = rw e at h in ground arith

pub not_exceeded :
    (limit : Option ℤ) (sum : ℤ) {n : ℤ} → limit ≡ some n → exceeds limit sum ≡ false → sum ≤ℤ n
not_exceeded limit sum {n} e h = let h' : exceeds (some n) sum ≡ false = rw e at h in ground arith

-- A stored transfer of the same request answers it.
pub replay_returns :
    (env : Env) (input : InitiateTransferInput) (db : Db) (t : Transaction)
    → (leb_ℤ input.send_amount (pos 0) || leb_ℤ input.payout_amount (pos 0)) ≡ false
    → find_where (keyed_by input.idempotency_key) db.transactions ≡ some t
    → is_replay input t ≡ true
    → initiate env input db ≡ (ok (record { duplicate = true; accepted = t }), db)
unfolding initiate ◌>>=◌
replay_returns env input db t amounts found same = rw (amounts, found, same)

-- The transfer that a request creates counts as a replay of that request.
pub new_transfer-is_replay :
    (env : Env) (input : InitiateTransferInput) (p : SenderProfile)
    → is_replay input (new_transfer env input p) ≡ true
new_transfer-is_replay env input p = ground (
  arith,
  eq_refl input.sender_profile_id,
  eq_refl input.beneficiary_id,
  eq_ℤ_refl input.send_amount,
  eq_refl input.quote_id,
)

-- The writes of a successful commit.
pub commit_transfer-written :
    (env : Env) (input : InitiateTransferInput) (session : Session) (profile : SenderProfile)
    (db : Db) (r : Initiation) (db' : Db)
    → commit_transfer env input session profile db ≡ (ok r, db')
    → let t = new_transfer env input profile in
      (r ≡ record { duplicate = false; accepted = t })
      × (db'.transactions ≡ db.transactions ++ t ∷ [])
      × (db'.jobs ≡ db.jobs ++ collection_job env t ∷ [])
      × (db'.sessions
          ≡ update_where
              (λ s. str_eq s.id session.id)
              (λ s. record s { transfer_id = some t.id })
              db.sessions)
unfolding commit_transfer ◌>>=◌
commit_transfer-written env input session profile db r db' h = ground arith

pub throw_if-rolls_back :
    (c : Bool) (t e : Thrown) (m : Action Initiation) (db : Db)
    → ((transaction m db).0 ≡ err e → (transaction m db).1 ≡ db)
    → ((throw_if c t >> transaction m) db).0 ≡ err e
    → ((throw_if c t >> transaction m) db).1 ≡ db
unfolding ◌>>=◌
throw_if-rolls_back true t e m db k h = refl
throw_if-rolls_back false t e m db k h = k h
