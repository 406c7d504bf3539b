-- ===== src/Ledger/Derive.antt =====
-- `deriveReconciliation` of zongo/libs/ledger/src/ledger.service.ts: a pure comparison of a
-- transfer's status with its ledger entries.
use zongo_v.Prelude.{
  Bool, false, not, ◌&&◌, ◌||◌, Option, none, some, List, [], ◌∷◌, String, length, find_where,
  select_where, any_where, ltb, ◌==◌, str_eq, if◌then◌else◌,
}
use zongo_v.Prelude.Int.{eq_ℤ}
use zongo_v.Domain.Lifecycle.{TransferStatus, status_eq}
use zongo_v.Db.Rows.{
  LedgerEntry, LedgerAccount, customer_collection, partner_clearing, beneficiary_payout, debit,
  credit, account_eq, direction_eq, currency_eq, ReconciliationStatus,
}

pub record Derived : Type 0 where
  pub status : ReconciliationStatus
  pub reason : Option String

abbrev pub is_collection : LedgerEntry → Bool
is_collection e = str_eq e.event_name "collection"

abbrev pub is_payout : LedgerEntry → Bool
is_payout e = str_eq e.event_name "payout"

abbrev pub is_unknown : LedgerEntry → Bool
is_unknown e = not (is_collection e) && not (is_payout e)

abbrev pub is_debit_of : LedgerAccount → LedgerEntry → Bool
is_debit_of a e = account_eq e.account a && direction_eq e.direction debit

abbrev pub is_credit_of : LedgerAccount → LedgerEntry → Bool
is_credit_of a e = account_eq e.account a && direction_eq e.direction credit

-- `Boolean(debit && credit && …)`
abbrev pub matches : Option LedgerEntry → Option LedgerEntry → Bool
matches none c = false
matches (some d) none = false
matches (some d) (some c) = eq_ℤ d.amount c.amount && currency_eq d.currency c.currency

unfoldable pub balanced_pair : List LedgerEntry → LedgerAccount → LedgerAccount → Bool
balanced_pair pair debit_account credit_account =
    (length pair == 2)
    && matches (find_where (is_debit_of debit_account) pair)
        (find_where (is_credit_of credit_account) pair)

-- The statuses in which the collection has been made.
abbrev pub collection_required : TransferStatus → Bool
collection_required s = any_where (status_eq s) (
    TransferStatus.collection_success ∷ TransferStatus.pending_payout
    ∷ TransferStatus.payout_success ∷ [])

abbrev pub derived : ReconciliationStatus → String → Derived
derived s r = record { status = s; reason = some r }

unfoldable pub derive_reconciliation : TransferStatus → List LedgerEntry → Derived
derive_reconciliation status entries =
    let collection = select_where is_collection entries in
    let payout = select_where is_payout entries in
    if any_where is_unknown entries
    then derived ReconciliationStatus.mismatch "Ledger contains an unknown lifecycle event"
    else if collection_required status && not (length collection == 2)
    then derived ReconciliationStatus.missing_collection_entry
        "Collection lifecycle requires balanced entries"
    else if status_eq status TransferStatus.payout_success && not (length payout == 2)
    then derived ReconciliationStatus.missing_payout_entry
        "Payout lifecycle requires balanced entries"
    else if (ltb 0 (length collection)
          && not (balanced_pair collection customer_collection partner_clearing))
        || (ltb 0 (length payout) && not (balanced_pair payout partner_clearing beneficiary_payout))
    then derived ReconciliationStatus.mismatch
        "Ledger entries do not match expected accounts and amounts"
    else record { status = ReconciliationStatus.consistent; reason = none }
