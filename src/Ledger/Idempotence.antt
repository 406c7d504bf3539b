-- ===== src/Ledger/Idempotence.antt =====
-- Posting the entries of a lifecycle event again (`appendLifecycleEntries` of
-- zongo/libs/ledger/src/ledger.service.ts).
use text.Mathlib.TextPositions.{eq_refl}
use zongo_v.Prelude.{
  ℕ, ◌≡◌, inl, inr, true, some, List, [], ◌∷◌, ◌++◌, String, arith, ltb, any_where, find_where,
  Bool-cases, any_where-append_left, any_where-append_last,
}
use zongo_v.Db.Rows.{Transaction, LedgerEntry, Db}
use zongo_v.Db.Monad.{ok, ◌>>=◌}
use zongo_v.Ledger.Posting.{
  LifecycleEvent, lifecycle_entries, same_key, create_many, by_id, append_lifecycle_entries,
}

same_key_refl : (e : LedgerEntry) → same_key e e ≡ true
same_key_refl e = ground (arith, eq_refl e.transaction_id, eq_refl e.event_name)

module _ (a b : LedgerEntry) (rows : List LedgerEntry) where
  -- Both rows are there after the call.
  create_many-present :
      let rows' = (create_many (a ∷ b ∷ []) rows).1 in
      (any_where (same_key a) rows' ≡ true) × (any_where (same_key b) rows' ≡ true)
  unfolding create_many
  create_many-present = ground (
    arith,
    same_key_refl a,
    same_key_refl b,
    any_where-append_last (same_key a) rows a,
    any_where-append_last (same_key b) rows b,
    any_where-append_left (same_key a) rows (b ∷ []),
    any_where-append_left (same_key b) rows (a ∷ []),
    any_where-append_left (same_key a) (rows ++ a ∷ []) (b ∷ []),
    any_where-append_last (same_key b) (rows ++ a ∷ []) b,
  )

  create_many_present :
      any_where (same_key a) rows ≡ true
      → any_where (same_key b) rows ≡ true
      → create_many (a ∷ b ∷ []) rows ≡ (0, rows)
  unfolding create_many
  create_many_present p q = rw (p, q)

create_many_again :
    (a b : LedgerEntry) (rows : List LedgerEntry)
    → let rows' = (create_many (a ∷ b ∷ []) rows).1 in create_many (a ∷ b ∷ []) rows' ≡ (0, rows')
create_many_again a b rows =
    let (p, q) = create_many-present a b rows in create_many_present a b _ p q

-- Posting the same event of a stored transfer a second time, at any later time, succeeds and
-- changes nothing: no entry is doubled and no second audit event is written.
pub append_lifecycle_entries_idempotent :
    (now later : ℕ) (id : String) (event : LifecycleEvent) (t : Transaction) (db : Db)
    → find_where (by_id id) db.transactions ≡ some t
    → let posted = (append_lifecycle_entries now id event db).1 in
      append_lifecycle_entries later id event posted ≡ (ok tt, posted)
unfolding append_lifecycle_entries ◌>>=◌
append_lifecycle_entries_idempotent now later id event t db found =
    let rows : List LedgerEntry = (create_many (lifecycle_entries event t) db.ledger_entries).1 in
    let again : create_many (lifecycle_entries event t) rows ≡ (0, rows) =
      create_many_again _ _ db.ledger_entries in
    elim (Bool-cases (ltb 0 (create_many (lifecycle_entries event t) db.ledger_entries).0)) [
      | inl e ↦ simp (found, e, again)
      | inr e ↦ simp (found, e, again)
    ]
