-- ===== src/Ledger/Balance.antt =====
-- What a CONSISTENT reconciliation of zongo/libs/ledger/src/ledger.service.ts says of the entries.
use text.Mathlib.TextEquality.{eq_iff}
use zongo_v.Prelude.{
  ◌≡◌, refl, ◌↔◌, ◌⊎◌, inl, inr, Bool, true, false, List, [], ◌∷◌, some, arith, length,
  select_where, any_where, Bool-cases, List-cases,
}
use zongo_v.Prelude.Int.{ℤ, ◌+ℤ◌, sum_where, int_laws, eq_ℤ→eq}
use zongo_v.Domain.Lifecycle.{TransferStatus, status_eq}
use zongo_v.Db.Rows.{
  LedgerEntry, LedgerAccount, customer_collection, partner_clearing, beneficiary_payout, debit,
  credit, direction_eq, ReconciliationStatus,
}
use zongo_v.Db.Tags.{account_eq→eq, direction_eq→eq, status_eq→eq, currency_eq→eq}
use zongo_v.Ledger.Derive.{
  is_collection, is_payout, is_debit_of, is_credit_of, matches, is_unknown, balanced_pair,
  collection_required, derive_reconciliation,
}

-- One debit and one credit of the same amount and currency, in either order.
pub record IsPair (from to : LedgerAccount) (entries : List LedgerEntry) : Type 0 where
  pub debited : LedgerEntry
  pub credited : LedgerEntry
  pub both : (entries ≡ debited ∷ credited ∷ []) ⊎ (entries ≡ credited ∷ debited ∷ [])
  pub debit_account : debited.account ≡ from
  pub debit_direction : debited.direction ≡ debit
  pub credit_account : credited.account ≡ to
  pub credit_direction : credited.direction ≡ credit
  pub amounts : debited.amount ≡ credited.amount
  pub currencies : debited.currency ≡ credited.currency

module _ (from to : LedgerAccount) where
  is_pair :
      {entries : List LedgerEntry} (d c : LedgerEntry)
      → ((entries ≡ d ∷ c ∷ []) ⊎ (entries ≡ c ∷ d ∷ []))
      → is_debit_of from d ≡ true
      → is_credit_of to c ≡ true
      → matches (some d) (some c) ≡ true
      → IsPair from to entries
  is_pair d c both hd hc hm = record {
    debited = d;
    credited = c;
    both = both;
    debit_account = ground (arith, account_eq→eq d.account from);
    debit_direction = ground (arith, direction_eq→eq d.direction debit);
    credit_account = ground (arith, account_eq→eq c.account to);
    credit_direction = ground (arith, direction_eq→eq c.direction credit);
    amounts = eq_ℤ→eq d.amount c.amount (ground arith);
    currencies = ground (arith, currency_eq→eq d.currency c.currency);
  }

  balanced_pair→IsPair :
      (entries : List LedgerEntry) → balanced_pair entries from to ≡ true → IsPair from to entries
  unfolding balanced_pair
  balanced_pair→IsPair [] h = cc
  balanced_pair→IsPair (x ∷ []) h = cc
  balanced_pair→IsPair (x ∷ y ∷ z ∷ rest) h = absurd (ground arith)
  balanced_pair→IsPair (x ∷ y ∷ []) h = elim (Bool-cases (is_debit_of from x)) [
    | inl e ↦ is_pair x y (inl refl) e (ground arith) (ground arith)
    | inr e ↦ is_pair y x (inr refl) (ground arith) (ground arith) (ground arith)
  ]

  IsPair→balanced_pair :
      (entries : List LedgerEntry) → IsPair from to entries → balanced_pair entries from to ≡ true
  unfolding balanced_pair
  IsPair→balanced_pair entries p = elim p.both [
    | inl e ↦ rw e (ground arith)
    | inr e ↦ rw e (ground arith)
  ]

-- Debits and credits of an event's entries.
abbrev is_debit : LedgerEntry → Bool
is_debit e = direction_eq e.direction debit

abbrev is_credit : LedgerEntry → Bool
is_credit e = direction_eq e.direction credit

abbrev pub debits : List LedgerEntry → ℤ
debits = sum_where is_debit (λ e. e.amount)

abbrev pub credits : List LedgerEntry → ℤ
credits = sum_where is_credit (λ e. e.amount)

IsPair-balances :
    (from to : LedgerAccount) (l : List LedgerEntry) → IsPair from to l → debits l ≡ credits l
unfolding ◌+ℤ◌
IsPair-balances from to l p = elim p.both [
  | inl e ↦ rw e (ground arith)
  | inr e ↦ rw e (ground arith)
]

not-both : (e : LedgerEntry) → is_collection e ≡ true → is_payout e ≡ false
not-both e h = rw ((eq_iff e.event_name "collection").0 h)

other_event :
    (x : LedgerEntry) (l : List LedgerEntry)
    → is_collection x ≡ false
    → any_where is_unknown (x ∷ l) ≡ false
    → is_payout x ≡ true
other_event x l n h = ground arith

-- An entry set with no unknown event splits into its two events.
sum-split :
    (p : LedgerEntry → Bool) (l : List LedgerEntry)
    → any_where is_unknown l ≡ false
    → sum_where p (λ e. e.amount) l
      ≡ sum_where p (λ e. e.amount) (select_where is_collection l)
        +ℤ sum_where p (λ e. e.amount) (select_where is_payout l)
sum-split p [] h = omega int_laws
sum-split p (x ∷ l) h =
    let rest = sum-split p l (ground arith) in
    elim (Bool-cases (is_collection x)) [
      | inl c ↦ rw (c, not-both x c, rest) (omega int_laws)
      | inr n ↦ rw (n, other_event x l n h, rest) (omega int_laws)
    ]

part_balances :
    {from to : LedgerAccount} {l : List LedgerEntry}
    → (l ≡ []) ⊎ IsPair from to l
    → debits l ≡ credits l
part_balances (inl e) = rw e
part_balances (inr p) = IsPair-balances _ _ _ p

IsPair-length : {from to : LedgerAccount} {l : List LedgerEntry} → IsPair from to l → length l ≡ 2
IsPair-length p = elim p.both [ inl e ↦ rw e | inr e ↦ rw e ]

none_or_pair :
    (from to : LedgerAccount) {l : List LedgerEntry}
    → (l ≡ []) ⊎ IsPair from to l
    → (length l ≡ 0) ⊎ ((length l ≡ 2) × (balanced_pair l from to ≡ true))
none_or_pair from to (inl e) = inl (rw e)
none_or_pair from to (inr p) = inr (IsPair-length p, IsPair→balanced_pair from to _ p)

-- What the status asks of the entries, and what any entries must satisfy.
pub record IsBalanced (status : TransferStatus) (entries : List LedgerEntry) : Type 0 where
  pub known : any_where is_unknown entries ≡ false
  pub collected :
      collection_required status ≡ true
      → IsPair customer_collection partner_clearing (select_where is_collection entries)
  pub paid_out :
      status ≡ TransferStatus.payout_success
      → IsPair partner_clearing beneficiary_payout (select_where is_payout entries)
  pub collection :
      (select_where is_collection entries ≡ [])
      ⊎ IsPair customer_collection partner_clearing (select_where is_collection entries)
  pub payout :
      (select_where is_payout entries ≡ [])
      ⊎ IsPair partner_clearing beneficiary_payout (select_where is_payout entries)

module _ (status : TransferStatus) (entries : List LedgerEntry) where
  derive→IsBalanced :
      (derive_reconciliation status entries).status ≡ ReconciliationStatus.consistent
      → IsBalanced status entries
  unfolding derive_reconciliation
  derive→IsBalanced h = record {
    known = ground arith;
    collected = λ r. balanced_pair→IsPair _ _ _ (ground arith);
    paid_out = λ e. balanced_pair→IsPair _ _ _ (ground arith);
    collection = elim (List-cases (select_where is_collection entries)) [
      | inl e ↦ inl e
      | inr some_entry ↦ inr (balanced_pair→IsPair _ _ _ (ground arith))
    ];
    payout = elim (List-cases (select_where is_payout entries)) [
      | inl e ↦ inl e
      | inr some_entry ↦ inr (balanced_pair→IsPair _ _ _ (ground arith))
    ];
  }

  IsBalanced→derive :
      IsBalanced status entries
      → (derive_reconciliation status entries).status ≡ ReconciliationStatus.consistent
  unfolding derive_reconciliation
  IsBalanced→derive b =
      let c = none_or_pair customer_collection partner_clearing b.collection in
      let p = none_or_pair partner_clearing beneficiary_payout b.payout in
      let collected = λ (r : collection_required status ≡ true). IsPair-length (b.collected r) in
      let paid_out = λ (e : status_eq status TransferStatus.payout_success ≡ true).
        IsPair-length (b.paid_out (status_eq→eq _ _ e)) in
      ground (arith, b.known, c, p, Bool-cases (collection_required status), collected, paid_out)

  -- A transfer reconciles as CONSISTENT exactly when no entry names an unknown event, each event
  -- has either no entry or one debit and one credit of the same amount and currency on its own two
  -- accounts, and the events that the status requires have theirs.
  pub derive-consistent_iff :
      ((derive_reconciliation status entries).status ≡ ReconciliationStatus.consistent)
      ↔ IsBalanced status entries
  derive-consistent_iff = (derive→IsBalanced, IsBalanced→derive)

  -- The entries of a transfer that reconciles as CONSISTENT have debits equal to their credits.
  pub consistent-balances :
      (derive_reconciliation status entries).status ≡ ReconciliationStatus.consistent
      → debits entries ≡ credits entries
  consistent-balances h =
      let b = derive→IsBalanced h in
      let c = part_balances b.collection in
      let p = part_balances b.payout in
      rw (sum-split is_debit entries b.known, sum-split is_credit entries b.known, c, p)
