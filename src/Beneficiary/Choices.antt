-- ===== src/Beneficiary/Choices.antt =====
-- Which beneficiaries zongo/libs/beneficiary/src/beneficiary.service.ts lets a transfer be paid to.
use text.Mathlib.TextEquality.{eq_iff}
use text.Mathlib.TextPositions.{eq_refl}
use zongo_v.Prelude.{
  ◌≡◌, refl, ap, ◌∙◌, inl, inr, true, false, not, none, some, List, [], ◌∷◌, ◌++◌, String,
  find_where, update_where, str_eq, truthy, find_where_holds, find_where-append_some,
  find_where-append_none, find_where-update_selected, find_where-update_unselected, Bool-cases,
  arith,
}
use zongo_v.Domain.Lifecycle.{TransferStatus, status_eq}
use zongo_v.Db.Rows.{Beneficiary, Transaction, SenderProfile, Db}
use zongo_v.Db.Env.{Env}
use zongo_v.Db.Monad.{domain, beneficiary_not_available, ok, err, ◌>>=◌}
use zongo_v.Db.Inversion.{lookup-ok, throw_if-ok, reads-ok, check-ok, reject_if-ok, some_or-ok}
use zongo_v.Ledger.Posting.{by_id}
use zongo_v.Transfer.Checks.{beneficiary_by, check_beneficiary}
use zongo_v.Transfer.Input.{InitiateTransferInput}
use zongo_v.Worker.Store.{transaction_with, update_transaction}
use zongo_v.Beneficiary.Revisions.{
  Changes, revision, is_row, retired, supersede, add_beneficiary, row_with, revise,
}
use zongo_v.Beneficiary.Selection.{
  Revealed, reveal_phone, select_for_transfer, retarget, set_retry_target, retargeted,
}

-- A beneficiary that may be paid: its owner, its corridor, and that it is the current revision.
abbrev pub IsAvailable : String → String → Beneficiary → Type 0
IsAvailable user_id corridor_id b =
    (b.user_id ≡ user_id) × (b.corridor_id ≡ corridor_id) × (b.is_current ≡ true)

reveal_phone-row :
    (env : Env) (b : Beneficiary) {r : Revealed} → reveal_phone env b ≡ ok r → r.row ≡ b
unfolding reveal_phone
reveal_phone-row env b h = ground arith

-- A beneficiary that is selected is the current revision of that user in that corridor.
select_for_transfer-IsAvailable :
    (env : Env) (id user_id corridor_id : String) (db : Db) {r : Revealed}
    → select_for_transfer env id user_id corridor_id db ≡ ok r
    → (beneficiary_by id db.beneficiaries ≡ some r.row) × IsAvailable user_id corridor_id r.row
unfolding select_for_transfer
select_for_transfer-IsAvailable env id user_id corridor_id db {r} h =
    let (b, found, h1) = check-ok _ _ h in
    let (allowed, h2) = reject_if-ok _ _ _ h1 in
    let row : r.row ≡ b = reveal_phone-row env b h2 in
    rw row (
      some_or-ok _ _ found,
      (
        (eq_iff b.user_id user_id).0 (ground arith),
        (eq_iff b.corridor_id corridor_id).0 (ground arith),
        ground arith,
      ),
    )

-- The beneficiary that a sender selects is the current revision of one of the sender's in that
-- corridor, and a new transfer accepts it as long as the rows stay.
pub selected-accepted :
    (env : Env) (input : InitiateTransferInput) (profile : SenderProfile) (db : Db) {r : Revealed}
    → select_for_transfer env input.beneficiary_id profile.user_id input.corridor_id db ≡ ok r
    → IsAvailable profile.user_id input.corridor_id r.row
      × (check_beneficiary input profile db ≡ ok tt)
unfolding check_beneficiary
selected-accepted env input profile db {r} h =
    let (found, (user, corridor, current)) =
      select_for_transfer-IsAvailable env input.beneficiary_id profile.user_id input.corridor_id db
        h in
    (
      (user, corridor, current),
      rw (found, user, corridor, current, eq_refl profile.user_id, eq_refl input.corridor_id) refl,
    )

-- What a retry target needed, and what it wrote.
pub record IsRetarget (id beneficiary_id : String) (db db' : Db) : Type 0 where
  pub t : Transaction
  pub b : Beneficiary
  pub transfer_found : find_where (by_id id) db.transactions ≡ some t
  pub beneficiary_found : beneficiary_by beneficiary_id db.beneficiaries ≡ some b
  pub failed : t.status ≡ TransferStatus.payout_failed
  pub available : IsAvailable t.sender_user_id t.corridor_id b
  pub written : db'.transactions ≡ update_where (by_id t.id) (retargeted b.id) db.transactions
  pub kept : (db'.jobs ≡ db.jobs) × (db'.ledger_entries ≡ db.ledger_entries)

status-eq : (a b : TransferStatus) → not (status_eq a b) ≡ false → a ≡ b
status-eq a b h = ground arith

retarget-writes :
    (env : Env) (t : Transaction) (beneficiary_id : String) (db : Db) {db' : Db}
    → retarget env t beneficiary_id db ≡ (ok tt, db')
    → (db'.transactions ≡ update_where (by_id t.id) (retargeted beneficiary_id) db.transactions)
      × (db'.jobs ≡ db.jobs)
      × (db'.ledger_entries ≡ db.ledger_entries)
unfolding retarget update_transaction ◌>>=◌
retarget-writes env t beneficiary_id db h = ground arith

-- A retry target is set only on a transfer whose payout failed, to the current revision of a
-- beneficiary of its sender in its corridor. It changes that field of the transfer and neither a job
-- nor a ledger entry.
pub set_retry_target-IsRetarget :
    (env : Env) (id beneficiary_id : String) (db : Db) {db' : Db}
    → set_retry_target env id beneficiary_id db ≡ (ok tt, db')
    → IsRetarget id beneficiary_id db db'
unfolding set_retry_target transaction_with
set_retry_target-IsRetarget env id beneficiary_id db h =
    let (t, found, h1) = lookup-ok (λ db. find_where (by_id id) db.transactions) _ _ db h in
    let (failed, h2) = throw_if-ok _ _ _ db h1 in
    let (r, selected, h3) =
      reads-ok (select_for_transfer env beneficiary_id t.sender_user_id t.corridor_id) _ db h2 in
    let (there, available) =
      select_for_transfer-IsAvailable env beneficiary_id t.sender_user_id t.corridor_id db
        selected in
    let (written, jobs, entries) = retarget-writes env t r.row.id db h3 in
    record {
      t = t;
      b = r.row;
      transfer_found = found;
      beneficiary_found = there;
      failed = status-eq _ _ failed;
      available = available;
      written = written;
      kept = (jobs, entries);
    }

supersede-rows :
    (env : Env) (changes : Changes) (b : Beneficiary) (db : Db) {next : Beneficiary} {db' : Db}
    → supersede env changes b db ≡ (ok next, db')
    → (next ≡ revision env changes b)
      × (db'.beneficiaries
          ≡ update_where (is_row b.id) retired (db.beneficiaries ++ revision env changes b ∷ []))
unfolding supersede add_beneficiary ◌>>=◌
supersede-rows env changes b db h = ground arith

-- What a revision needed, and what it left.
pub record IsRevision (env : Env) (id : String) (changes : Changes) (db db' : Db)
    (next : Beneficiary) : Type 0 where
  pub b : Beneficiary
  pub found : beneficiary_by id db.beneficiaries ≡ some b
  pub was_current : b.is_current ≡ true
  pub is_next : next ≡ revision env changes b
  pub written :
      db'.beneficiaries
      ≡ update_where (is_row b.id) retired (db.beneficiaries ++ revision env changes b ∷ [])

revise-IsRevision :
    (env : Env) (id : String) (changes : Changes) (db : Db) {next : Beneficiary} {db' : Db}
    → revise env id changes db ≡ (ok next, db')
    → IsRevision env id changes db db' next
unfolding revise row_with
revise-IsRevision env id changes db h =
    let (b, found, h1) = lookup-ok (λ db. beneficiary_by id db.beneficiaries) _ _ db h in
    let (current, h2) = throw_if-ok _ _ _ db h1 in
    let (same, rows) = supersede-rows env changes b db h2 in
    record { b = b; found = found; was_current = ground arith; is_next = same; written = rows }

-- The two rows of a revision, as they are found after it.
module _ (env : Env) (changes : Changes) (b : Beneficiary) (bs : List Beneficiary)
    (id : String) where
  abbrev next_row : Beneficiary
  next_row = revision env changes b

  abbrev rows_after : List Beneficiary
  rows_after = update_where (is_row b.id) retired (bs ++ next_row ∷ [])

  old_row : beneficiary_by id bs ≡ some b → beneficiary_by id rows_after ≡ some (retired b)
  old_row found =
      find_where-update_selected (is_row id) (is_row b.id) retired (bs ++ next_row ∷ []) (λ x. refl)
        (find_where-append_some (is_row id) bs (next_row ∷ []) found) (eq_refl b.id)

  new_row :
      beneficiary_by id bs ≡ some b
      → beneficiary_by next_row.id bs ≡ none
      → beneficiary_by next_row.id rows_after ≡ some next_row
  new_row found fresh =
      find_where-update_unselected (is_row next_row.id) (is_row b.id) retired (bs ++ next_row ∷ [])
        (λ x. refl)
        (find_where-append_none (is_row next_row.id) bs (next_row ∷ []) fresh
          ∙ rw (eq_refl next_row.id) refl)
        (elim (Bool-cases (str_eq next_row.id b.id)) [
          | inl e ↦
              let same : next_row.id ≡ id =
                (eq_iff next_row.id b.id).0 e
                ∙ (eq_iff b.id id).0 (find_where_holds (is_row id) bs found) in
              absurd (cc (fresh, ap (λ i. beneficiary_by i bs) same, found))
          | inr e ↦ e
        ])

-- A revision can be selected in place of the row that it revises, with the new phone, and that row
-- can no longer be selected. The encryption is one that decrypts to what was encrypted, and the new
-- row has an identifier of its own.
pub revise-select :
    (env reader : Env) (id : String) (changes : Changes) (db : Db)
    → {next : Beneficiary} {db' : Db} → revise env id changes db ≡ (ok next, db')
    → beneficiary_by (env.new_id "beneficiary") db.beneficiaries ≡ none
    → truthy (some changes.phone_number) ≡ true
    → truthy (some (env.encrypt changes.phone_number "beneficiary-phone")) ≡ true
    → reader.decrypt (env.encrypt changes.phone_number "beneficiary-phone") "beneficiary-phone"
      ≡ some changes.phone_number
    → (select_for_transfer reader next.id next.user_id next.corridor_id db'
        ≡ ok (record { row = next; phone_number = changes.phone_number }))
      × ((user_id corridor_id : String)
          → select_for_transfer reader id user_id corridor_id db'
            ≡ err (domain beneficiary_not_available))
unfolding select_for_transfer reveal_phone
revise-select env reader id changes db {next} {db'} h fresh given there opens =
    let a = revise-IsRevision env id changes db h in
    let new = new_row env changes a.b db.beneficiaries id a.found fresh in
    let old = old_row env changes a.b db.beneficiaries id a.found in
    rw (a.is_next, a.written, new, old)
      (
        rw (eq_refl a.b.user_id, eq_refl a.b.corridor_id, there, opens, given) refl,
        λ user_id corridor_id. ground arith,
      )
