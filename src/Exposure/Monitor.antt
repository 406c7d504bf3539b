-- ===== src/Exposure/Monitor.antt =====
-- zongo/apps/worker/src/pilot-exposure-monitor.service.ts
use zongo_v.Prelude.{
  ℕ, zero, suc, ◌+◌, ◌*◌, ◌/◌, Bool, true, false, not, Option, none, some, List, [], ◌∷◌, ◌++◌,
  String, find_where, update_where, count_where, any_where, leb, str_eq, template, if◌then◌else◌,
}
use zongo_v.Prelude.Int.{ℤ, pos, negsuc, leb_ℤ, sum_where}
use zongo_v.Domain.Lifecycle.{TransferStatus, status_eq}
use zongo_v.Db.Rows.{
  DeliveryStatus, Transaction, Session, SessionStatus, session_status_eq, ControlKey, ControlState,
  permanently_stopped, paused, PilotControl, control_key_eq, ExposurePolicy, Severity, severity_eq,
  ExposureSignal, technical, Db,
}
use zongo_v.Db.Env.{Env}
use zongo_v.Db.Monad.{Action, ⊤, pure, gets, modify, transaction, when, ◌>>=◌, ◌>>◌}
use zongo_v.Ledger.Posting.{append_audit}

pub record ExposureMetric : Type 0 where
  pub key : String
  pub observed : ℤ
  pub limit : Option ℤ

abbrev pub has_status : List TransferStatus → Transaction → Bool
has_status statuses t = any_where (status_eq t.status) statuses

abbrev pub is_pending : Transaction → Bool
is_pending = has_status (
    TransferStatus.initiated ∷ TransferStatus.pending_collection ∷ TransferStatus.pending_payout
    ∷ [])

abbrev pub is_waiting : Session → Bool
is_waiting s = session_status_eq s.status SessionStatus.waiting

abbrev pub is_payout_failed : Transaction → Bool
is_payout_failed = has_status (TransferStatus.payout_failed ∷ [])

-- `createdAt: { gte: today }`
abbrev pub since : ℕ → Transaction → Bool
since start t = leb start t.created_at

abbrev pub count_limit : Option ℕ → Option ℤ
count_limit none = none
count_limit (some n) = some (pos n)

abbrev pub metrics_of : Env → ExposurePolicy → Db → List ExposureMetric
metrics_of env policy db =
    record {
      key = "pending";
      observed = pos (count_where is_pending db.transactions);
      limit = count_limit policy.max_pending_transfers;
    }
    ∷ record {
      key = "ambiguous";
      observed = pos (count_where is_waiting db.sessions);
      limit = count_limit policy.max_ambiguous_transfers;
    }
    ∷ record {
      key = "recovery";
      observed = pos (count_where is_payout_failed db.transactions);
      limit = count_limit policy.max_recovery_capacity;
    }
    ∷ record {
      key = "global-daily-send-minor";
      observed = sum_where (since env.start_of_day) (λ t. t.send_amount) db.transactions;
      limit = policy.global_daily_send;
    }
    ∷ []

-- `(limit * 80n + 99n) / 100n`, for a positive limit.
unfoldable pub warning_threshold : ℕ → ℕ
warning_threshold limit = (limit * 80 + 99) / 100

unfoldable pub severity_of : ℤ → ℕ → Severity
unfolding warning_threshold
severity_of observed limit =
    if leb_ℤ (pos limit) observed
    then Severity.urgent
    else if leb_ℤ (pos (warning_threshold limit)) observed
    then Severity.warning
    else Severity.normal

-- `severity.toLowerCase()`
abbrev pub severity_name : Severity → String
severity_name Severity.normal = "normal"
severity_name Severity.warning = "warning"
severity_name Severity.urgent = "urgent"

abbrev pub signals_for : String → ExposureSignal → Bool
signals_for key s = str_eq s.key key

abbrev pub is_control : ControlKey → PilotControl → Bool
is_control key c = control_key_eq c.key key

abbrev pub state_of : Option PilotControl → Option ControlState
state_of none = none
state_of (some c) = some c.state

abbrev pub is_stopped : Option ControlState → Bool
is_stopped (some permanently_stopped) = true
is_stopped (some paused) = false
is_stopped (some ControlState.enabled) = false
is_stopped none = false

abbrev pub upsert_control : PilotControl → List PilotControl → List PilotControl
upsert_control c rows =
    if any_where (is_control c.key) rows
    then update_where (is_control c.key) (λ old. record old { state = c.state; reason = c.reason })
        rows
    else rows ++ c ∷ []

-- The automatic pause of new transfers, unless they are stopped for good.
unfoldable pub pause_initiation : String → List PilotControl → List PilotControl
pause_initiation metric rows =
    if is_stopped (state_of (find_where (is_control ControlKey.initiation) rows))
    then rows
    else upsert_control
        (record {
          key = ControlKey.initiation;
          state = paused;
          reason = some (template ("Automatic exposure pause: " ∷ metric ∷ []));
          changed_by = none;
        })
        rows

abbrev pub upsert_signal : ExposureSignal → List ExposureSignal → List ExposureSignal
upsert_signal s rows =
    if any_where (signals_for s.key) rows
    then update_where (signals_for s.key) (λ _. s) rows
    else rows ++ s ∷ []

-- The transaction that raises a signal.
unfoldable pub emit : Env → String → ℤ → ℕ → Severity → Action ⊤
emit env key observed limit severity = transaction (do
  modify λ db. record db {
    signals =
        upsert_signal
          (record {
            key = key;
            severity = severity;
            observed_value = observed;
            threshold = pos limit;
            last_emitted_at = env.now;
          })
          db.signals;
  }
  append_audit technical (template ("pilot.exposure." ∷ severity_name severity ∷ [])) none env.now
  modify λ db. record db {
    alert_deliveries =
        db.alert_deliveries
        ++ record {
          id = env.new_id (template ("alert:" ∷ key ∷ []));
          action_name = template ("pilot.exposure." ∷ severity_name severity ∷ []);
          severity = severity;
          status = DeliveryStatus.pending;
          attempts = 0;
          next_attempt_at = some env.now;
          last_error = none;
          delivered_at = none;
          acknowledged_at = none;
          acknowledged_by = none;
          escalated_at = none;
          escalated_by = none;
          created_at = env.now;
        }
          ∷ [];
  }
  when (severity_eq severity Severity.urgent)
      (modify λ db. record db { controls = pause_initiation key db.controls }))

-- `if (previous) update({ severity, observedValue, threshold })`: nothing where no row matches.
abbrev pub settle : String → ℤ → ℕ → List ExposureSignal → List ExposureSignal
settle key observed limit =
    update_where (signals_for key)
      λ s. record s { severity = Severity.normal; observed_value = observed; threshold = pos limit }

abbrev pub same_severity : Severity → Option ExposureSignal → Bool
same_severity severity none = false
same_severity severity (some s) = severity_eq s.severity severity

-- A metric whose limit is positive, by its severity.
unfoldable pub signal : Env → String → ℤ → ℕ → Severity → Action ⊤
signal env key observed limit Severity.normal =
    modify λ db. record db { signals = settle key observed limit db.signals }
signal env key observed limit severity = do
  previous ← gets (λ db. find_where (signals_for key) db.signals)
  when (not (same_severity severity previous)) (do
    emit env key observed limit severity
    append_audit technical (template ("pilot.exposure." ∷ severity_name severity ∷ ".emitted" ∷ []))
        none env.now)

unfoldable pub evaluate_metric : Env → ExposureMetric → Action ⊤
evaluate_metric env metric = elim metric.limit [
  | none ↦ pure tt
  | some (negsuc n) ↦ pure tt
  | some (pos zero) ↦ pure tt
  | some (pos (suc n)) ↦
      signal env metric.key metric.observed (suc n) (severity_of metric.observed (suc n))
]

unfoldable pub evaluate_all : Env → List ExposureMetric → Action ⊤
evaluate_all env [] = pure tt
evaluate_all env (metric ∷ metrics) = evaluate_metric env metric >> evaluate_all env metrics

unfoldable pub evaluate : Env → Action ⊤
evaluate env = do
  policy ← gets (λ db. db.exposure_policy)
  metrics ← gets (λ db. elim policy [ none ↦ [] | some p ↦ metrics_of env p db ])
  evaluate_all env metrics
