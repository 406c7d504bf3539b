-- ===== src/Tests/LedgerExamples.antt =====
-- The ledger and its reconciliation, at concrete inputs.
use zongo_v.Prelude.{◌≡◌, refl, ◌↔◌, List, ◌++◌}
use zongo_v.Domain.Lifecycle.{TransferStatus}
use zongo_v.Db.Rows.{LedgerEntry, ReconciliationStatus, Db}
use zongo_v.Db.Monad.{ok}
use zongo_v.Ledger.Derive.{derive_reconciliation}
use zongo_v.Ledger.Posting.{LifecycleEvent, lifecycle_entries, entries_of, append_lifecycle_entries}
use zongo_v.Ledger.Balance.{IsBalanced, derive-consistent_iff}
use zongo_v.Ledger.Idempotence.{append_lifecycle_entries_idempotent}
use zongo_v.Ledger.Cycle.{posted_cycle-consistent}
use zongo_v.Tests.Data.{old_transfer, test_db}

abbrev collected_entries : List LedgerEntry
collected_entries = lifecycle_entries LifecycleEvent.collection old_transfer

derive-consistent_iff_example :
    ((derive_reconciliation TransferStatus.pending_payout collected_entries).status
      ≡ ReconciliationStatus.consistent)
    ↔ IsBalanced TransferStatus.pending_payout collected_entries
derive-consistent_iff_example =
    derive-consistent_iff TransferStatus.pending_payout collected_entries

abbrev posted_db : Db
posted_db = (append_lifecycle_entries 1 "t1" LifecycleEvent.collection test_db).1

append_lifecycle_entries_idempotent_example :
    append_lifecycle_entries 2 "t1" LifecycleEvent.collection posted_db ≡ (ok tt, posted_db)
append_lifecycle_entries_idempotent_example =
    append_lifecycle_entries_idempotent 1 2 "t1" LifecycleEvent.collection old_transfer test_db refl

abbrev cycle_entries : List LedgerEntry
cycle_entries =
    entries_of "t1"
      (append_lifecycle_entries 2 "t1" LifecycleEvent.payout posted_db).1.ledger_entries

posted_cycle-consistent_example :
    (cycle_entries ≡ collected_entries ++ lifecycle_entries LifecycleEvent.payout old_transfer)
    × ((derive_reconciliation TransferStatus.payout_success cycle_entries).status
        ≡ ReconciliationStatus.consistent)
posted_cycle-consistent_example = posted_cycle-consistent 1 2 old_transfer test_db refl refl
