-- ===== src/Tests/DispatchExamples.antt =====
-- Rounds of the dispatcher, at concrete inputs.
use zongo_v.Prelude.{◌≡◌, ◌⊎◌, true, false, select_where}
use zongo_v.Prelude.Sorting.{IsFirst}
use zongo_v.Db.Monad.{when}
use zongo_v.Exposure.Monitor.{evaluate}
use zongo_v.Dispatch.Select.{poll}
use zongo_v.Dispatch.Batches.{waits, poll-IsFirst}
use zongo_v.Dispatch.Sweep.{Dispatcher, Order, answers, write_throws}
use zongo_v.Dispatch.Loop.{Wiring, dispatch}
use zongo_v.Dispatch.Rounds.{Paced, dispatch-Paced}
use zongo_v.Tests.Data.{test_env, test_services, test_db}

abbrev fresh : Dispatcher
fresh = record { running = false; last_reconciliation_sweep = 0; last_status_sweep = 0 }

abbrev as_stored : Order
as_stored ts = ts

abbrev wiring : Wiring
wiring = record {
  services = test_services;
  order = as_stored;
  reconciliation_answer = answers;
  status_answer = write_throws;
  monitored = true;
  audited = true;
}

poll-IsFirst_example :
    IsFirst
      (λ j. j.created_at)
      20
      (select_where (λ j. waits j.job_type j.status) test_db.jobs)
      (poll test_db)
poll-IsFirst_example = poll-IsFirst test_db

dispatch-Paced_example :
    let (d', db') = dispatch test_env wiring fresh test_db in
    ((fresh.running ≡ true) × (d' ≡ fresh) × (db' ≡ test_db))
    ⊎ ((fresh.running ≡ false)
        × (d'.running ≡ false)
        × Paced test_env wiring (when wiring.monitored (evaluate test_env) test_db).0 fresh d')
dispatch-Paced_example = dispatch-Paced test_env wiring fresh test_db
