-- ===== src/Ledger/Cycle.antt =====
-- The ledger of a whole transfer: what the postings of zongo/libs/ledger/src/ledger.service.ts
-- leave for its reconciliation.
use text.Mathlib.TextPositions.{eq_refl}
use zongo_v.Prelude.{
  ℕ, ◌≡◌, ◌≢◌, refl, inl, inr, ◌∙◌, Bool, false, some, List, [], ◌∷◌, ◌++◌, arith, ltb, any_where,
  find_where, select_where, str_eq, Bool-cases, append_assoc,
}
use zongo_v.Domain.Lifecycle.{TransferStatus}
use zongo_v.Db.Rows.{Transaction, LedgerEntry, ReconciliationStatus, Db}
use zongo_v.Db.Monad.{◌>>=◌}
use zongo_v.Ledger.Derive.{derive_reconciliation, balanced_pair}
use zongo_v.Ledger.Posting.{
  LifecycleEvent, collection, payout, lifecycle_entries, debit_entry, credit_entry, same_key,
  create_many, by_id, entries_of, append_lifecycle_entries,
}

-- A balanced transfer: what the two postings add up to reconciles with the final status.
postings-consistent :
    (t : Transaction)
    → (derive_reconciliation TransferStatus.payout_success
        (lifecycle_entries collection t ++ lifecycle_entries payout t)).status
      ≡ ReconciliationStatus.consistent
unfolding derive_reconciliation balanced_pair
postings-consistent t = ground arith

select_where-append {ℓ} :
    {A : Type ℓ} (p : A → Bool) (xs ys : List A)
    → select_where p (xs ++ ys) ≡ select_where p xs ++ select_where p ys
select_where-append p [] ys = refl
select_where-append p (x ∷ xs) ys = ground (arith, select_where-append p xs ys)

any_where-append {ℓ} :
    {A : Type ℓ} (p : A → Bool) (xs ys : List A)
    → any_where p xs ≡ false
    → any_where p (xs ++ ys) ≡ any_where p ys
any_where-append p [] ys h = refl
any_where-append p (x ∷ xs) ys h = ground (arith, any_where-append p xs ys)

no_row : (x : LedgerEntry) (rows : List LedgerEntry) → x ∷ rows ≢ []
no_row x rows h = cc

-- A transfer without entries has none under any key of its own.
no_entries-fresh :
    (e : LedgerEntry) (rows : List LedgerEntry)
    → entries_of e.transaction_id rows ≡ []
    → any_where (same_key e) rows ≡ false
no_entries-fresh e [] h = refl
no_entries-fresh e (x ∷ rows) h = elim (Bool-cases (str_eq x.transaction_id e.transaction_id)) [
  | inl same ↦ absurd (no_row x _ (rw same at h))
  | inr other ↦ rw other (no_entries-fresh e rows (rw other at h))
]

own_entries :
    (t : Transaction)
    → let entries = lifecycle_entries collection t ++ lifecycle_entries payout t in
      entries_of t.id entries ≡ entries
own_entries t = simp (eq_refl)

create_many_fresh :
    (a b : LedgerEntry) (rows : List LedgerEntry)
    → any_where (same_key a) rows ≡ false
    → any_where (same_key b) rows ≡ false
    → same_key b a ≡ false
    → create_many (a ∷ b ∷ []) rows ≡ (2, rows ++ a ∷ b ∷ [])
unfolding create_many
create_many_fresh a b rows p q r =
    rw (p, any_where-append (same_key b) rows (a ∷ []) q, r, append_assoc)

post_collection :
    (t : Transaction) (rows : List LedgerEntry)
    → entries_of t.id rows ≡ []
    → create_many (lifecycle_entries collection t) rows
      ≡ (2, rows ++ lifecycle_entries collection t)
post_collection t rows h =
    create_many_fresh (debit_entry collection t) (credit_entry collection t) rows
      (no_entries-fresh (debit_entry collection t) rows h)
      (no_entries-fresh (credit_entry collection t) rows h) (ground arith)

post_payout :
    (t : Transaction) (rows : List LedgerEntry)
    → entries_of t.id rows ≡ []
    → create_many (lifecycle_entries payout t) (rows ++ lifecycle_entries collection t)
      ≡ (2, (rows ++ lifecycle_entries collection t) ++ lifecycle_entries payout t)
post_payout t rows h =
    create_many_fresh (debit_entry payout t) (credit_entry payout t)
      (rows ++ lifecycle_entries collection t)
      (not-collected (debit_entry payout t) (no_entries-fresh (debit_entry payout t) rows h)
        (ground arith))
      (not-collected (credit_entry payout t) (no_entries-fresh (credit_entry payout t) rows h)
        (ground arith))
      (ground arith)
  where
    not-collected :
        (e : LedgerEntry)
        → any_where (same_key e) rows ≡ false
        → any_where (same_key e) (lifecycle_entries collection t) ≡ false
        → any_where (same_key e) (rows ++ lifecycle_entries collection t) ≡ false
    not-collected e p q = any_where-append (same_key e) rows _ p ∙ q

-- One posting to a stored transfer, by the rows that `create_many` returns.
append-entries :
    (now : ℕ) (event : LifecycleEvent) (t : Transaction) (db : Db)
    → find_where (by_id t.id) db.transactions ≡ some t
    → let after = (append_lifecycle_entries now t.id event db).1 in
      (after.ledger_entries ≡ (create_many (lifecycle_entries event t) db.ledger_entries).1)
      × (after.transactions ≡ db.transactions)
unfolding append_lifecycle_entries ◌>>=◌
append-entries now event t db found =
    elim (Bool-cases (ltb 0 (create_many (lifecycle_entries event t) db.ledger_entries).0)) [
      | inl e ↦ simp (found, e) (refl, refl)
      | inr e ↦ simp (found, e) (refl, refl)
    ]

module _ (now later : ℕ) (t : Transaction) (db : Db) where
  -- A stored transfer that has no ledger entries and whose collection and then payout are posted
  -- has exactly the four entries of the two events, and with them it reconciles as CONSISTENT in
  -- the status PAYOUT_SUCCESS.
  pub posted_cycle-consistent :
      find_where (by_id t.id) db.transactions ≡ some t
      → entries_of t.id db.ledger_entries ≡ []
      → let collected = (append_lifecycle_entries now t.id collection db).1 in
        let paid = (append_lifecycle_entries later t.id payout collected).1 in
        let entries = entries_of t.id paid.ledger_entries in
        (entries ≡ lifecycle_entries collection t ++ lifecycle_entries payout t)
        × ((derive_reconciliation TransferStatus.payout_success entries).status
            ≡ ReconciliationStatus.consistent)
  posted_cycle-consistent found none_yet =
      let collected : Db = (append_lifecycle_entries now t.id collection db).1 in
      let paid : Db = (append_lifecycle_entries later t.id payout collected).1 in
      let (rows, kept) = append-entries now collection t db found in
      let (rows', _) = append-entries later payout t collected (rw kept found) in
      let all : paid.ledger_entries
          ≡ (db.ledger_entries ++ lifecycle_entries collection t) ++ lifecycle_entries payout t =
        rows'
        ∙ rw (rows, post_collection t db.ledger_entries none_yet)
            (rw (post_payout t db.ledger_entries none_yet)) in
      let entries : entries_of t.id paid.ledger_entries
          ≡ lifecycle_entries collection t ++ lifecycle_entries payout t =
        rw (all, append_assoc, select_where-append, none_yet) (own_entries t) in
      (entries, rw entries (postings-consistent t))
