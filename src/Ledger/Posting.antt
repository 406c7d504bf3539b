-- ===== src/Ledger/Posting.antt =====
-- The writes of zongo/libs/ledger/src/ledger.service.ts.
use text.Mathlib.Text.{starts_with}
use zongo_v.Prelude.{
  ℕ, ◌+◌, Bool, true, false, not, template, ◌&&◌, Option, none, some, List, [], ◌∷◌, ◌++◌, String,
  length, find_where, select_where, any_where, update_where, ltb, str_eq, is_some, get_or,
  if◌then◌else◌,
}
use zongo_v.Prelude.Int.{ℤ}
use zongo_v.Db.Rows.{
  Transaction, Currency, LedgerEntry, LedgerAccount, customer_collection, partner_clearing,
  beneficiary_payout, debit, credit, account_eq, direction_eq, ReconciliationStatus, Reconciliation,
  AuditEvent, AuditEventType, business, technical, warning, urgent, Db,
}
use zongo_v.Db.Monad.{Action, ⊤, not_found, pure, gets, or_throw, modify, when, ◌>>=◌, ◌>>◌}
use zongo_v.Ledger.Derive.{derive_reconciliation}

-- `'collection' | 'payout'`
pub data LifecycleEvent : Type 0 where
  collection payout : LifecycleEvent

abbrev pub event_name : LifecycleEvent → String
event_name collection = "collection"
event_name payout = "payout"

-- `this.audit.append(…)`
abbrev pub append_audit : AuditEventType → String → Option String → ℕ → Action ⊤
append_audit kind name transaction_id now = modify λ db. record db {
  audit_events =
      db.audit_events
      ++ record {
        event_type = kind;
        name = name;
        transaction_id = transaction_id;
        created_at = now;
      }
        ∷ [];
}

abbrev pub amount_of : LifecycleEvent → Transaction → ℤ
amount_of collection t = t.send_amount
amount_of payout t = get_or t.payout_amount t.send_amount

abbrev pub currency_of : LifecycleEvent → Transaction → Currency
currency_of collection t = t.send_currency
currency_of payout t = get_or t.payout_currency t.send_currency

abbrev pub debit_account : LifecycleEvent → LedgerAccount
debit_account collection = customer_collection
debit_account payout = partner_clearing

abbrev pub credit_account : LifecycleEvent → LedgerAccount
credit_account collection = partner_clearing
credit_account payout = beneficiary_payout

abbrev pub debit_entry : LifecycleEvent → Transaction → LedgerEntry
debit_entry event t = record {
  transaction_id = t.id;
  account = debit_account event;
  direction = debit;
  amount = amount_of event t;
  currency = currency_of event t;
  event_name = event_name event;
}

abbrev pub credit_entry : LifecycleEvent → Transaction → LedgerEntry
credit_entry event t = record {
  transaction_id = t.id;
  account = credit_account event;
  direction = credit;
  amount = amount_of event t;
  currency = currency_of event t;
  event_name = event_name event;
}

-- The two entries that an event posts.
abbrev pub lifecycle_entries : LifecycleEvent → Transaction → List LedgerEntry
lifecycle_entries event t = debit_entry event t ∷ credit_entry event t ∷ []

-- The unique key of a ledger entry: transaction, event, account, direction.
abbrev pub same_key : LedgerEntry → LedgerEntry → Bool
same_key a b =
    str_eq b.transaction_id a.transaction_id
    && str_eq b.event_name a.event_name
    && account_eq a.account b.account
    && direction_eq a.direction b.direction

-- `createMany({ data, skipDuplicates: true })`: the rows, and how many were new.
unfoldable pub create_many : List LedgerEntry → List LedgerEntry → ℕ × List LedgerEntry
create_many [] rows = (0, rows)
create_many (e ∷ es) rows =
    let present = any_where (same_key e) rows in
    let (count, rows') = create_many es (if present then rows else rows ++ e ∷ []) in
    (if present then count else count + 1, rows')

abbrev pub by_id : String → Transaction → Bool
by_id id t = str_eq t.id id

unfoldable pub append_lifecycle_entries : ℕ → String → LifecycleEvent → Action ⊤
append_lifecycle_entries now transaction_id event = do
  found ← gets (λ db. find_where (by_id transaction_id) db.transactions)
  t ← or_throw found not_found
  posted ← gets (λ db. create_many (lifecycle_entries event t) db.ledger_entries)
  modify (λ db. record db { ledger_entries = posted.1 })
  when (ltb 0 posted.0) (
      append_audit business (template ("ledger." ∷ event_name event ∷ ".posted" ∷ []))
        (some transaction_id) now)

abbrev pub is_callback_of : String → AuditEvent → Bool
is_callback_of id a =
    str_eq (get_or a.transaction_id "") id
    && is_some a.transaction_id
    && starts_with a.name "transfer.callback."

-- `callbackEvents[0]?.createdAt`, in descending order of creation: the latest.
abbrev pub latest : List AuditEvent → Option ℕ
latest [] = none
latest (a ∷ rest) = elim (latest rest) [
  | none ↦ some a.created_at
  | some t ↦ some (if ltb t a.created_at then a.created_at else t)
]

abbrev pub entries_of : String → List LedgerEntry → List LedgerEntry
entries_of id = select_where (λ e. str_eq e.transaction_id id)

-- The reconciliation row that the current state of a transfer asks for.
unfoldable pub snapshot_of : Transaction → Db → Reconciliation
snapshot_of t db =
    let result = derive_reconciliation t.status (entries_of t.id db.ledger_entries) in
    let callbacks = select_where (is_callback_of t.id) db.audit_events in
    record {
      transaction_id = t.id;
      status = result.status;
      reason = result.reason;
      transaction_status = t.status;
      provider_status_snapshot = t.last_status_recheck_result;
      provider_reference_present = elim t.partner_reference [
        | none ↦ false
        | some r ↦ not (str_eq r "")
      ];
      callback_count = length callbacks;
      last_callback_at = latest callbacks;
    }

abbrev pub reconciles : String → Reconciliation → Bool
reconciles id r = str_eq r.transaction_id id

-- `upsert({ where: { transactionId } })`
abbrev pub upsert_reconciliation : Reconciliation → List Reconciliation → List Reconciliation
upsert_reconciliation r rows =
    if any_where (reconciles r.transaction_id) rows
    then update_where (reconciles r.transaction_id) (λ _. r) rows
    else rows ++ r ∷ []

abbrev pub is_consistent : ReconciliationStatus → Bool
is_consistent ReconciliationStatus.consistent = true
is_consistent ReconciliationStatus.pending = false
is_consistent ReconciliationStatus.missing_collection_entry = false
is_consistent ReconciliationStatus.missing_payout_entry = false
is_consistent ReconciliationStatus.mismatch = false

unfoldable pub persist_reconciliation : String → Action Reconciliation
persist_reconciliation transaction_id = do
  found ← gets (λ db. find_where (by_id transaction_id) db.transactions)
  t ← or_throw found not_found
  snapshot ← gets (snapshot_of t)
  modify λ db. record db { reconciliations = upsert_reconciliation snapshot db.reconciliations }
  when (not (is_consistent snapshot.status)) (
      modify λ db. record db {
        alerts = db.alerts ++ warning "reconciliation.mismatch" transaction_id ∷ [];
      })
  pure snapshot

unfoldable pub signal_direct_failure : ℕ → String → String → Action ⊤
signal_direct_failure now transaction_id reason = do
  modify λ db. record db {
    alerts = db.alerts ++ urgent "transaction-or-ledger.failure" transaction_id ∷ [];
  }
  append_audit technical "ledger.failure.alerted" (some transaction_id) now
