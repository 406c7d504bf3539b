-- ===== src/Db/Rows/Controls.antt =====
-- The controls of the pilot, its exposure and its alerts (zongo/prisma/schema.prisma).
use zongo_v.Prelude.{ℕ, Bool, Option, String, ◌==◌}
use zongo_v.Prelude.Int.{ℤ}

pub data ControlKey : Type 0 where
  global initiation collection payout corridor_provider notification : ControlKey

abbrev pub control_tag : ControlKey → ℕ
control_tag ControlKey.global = 0
control_tag ControlKey.initiation = 1
control_tag ControlKey.collection = 2
control_tag ControlKey.payout = 3
control_tag ControlKey.corridor_provider = 4
control_tag ControlKey.notification = 5

abbrev pub control_key_eq : ControlKey → ControlKey → Bool
control_key_eq a b = control_tag a == control_tag b

pub data ControlState : Type 0 where
  enabled paused permanently_stopped : ControlState

abbrev pub is_enabled : ControlState → Bool
is_enabled enabled = Bool.true
is_enabled paused = Bool.false
is_enabled permanently_stopped = Bool.false

pub record PilotControl : Type 0 where
  pub key : ControlKey
  pub state : ControlState
  pub reason : Option String
  pub changed_by : Option String

pub record ExposurePolicy : Type 0 where
  pub allowlist_required : Bool
  pub max_pending_transfers : Option ℕ
  pub max_ambiguous_transfers : Option ℕ
  pub max_partner_settlement : Option ℤ
  pub max_recovery_capacity : Option ℕ
  pub global_daily_send : Option ℤ
  pub updated_by : Option String

pub data Severity : Type 0 where
  normal warning urgent : Severity

abbrev pub severity_tag : Severity → ℕ
severity_tag Severity.normal = 0
severity_tag Severity.warning = 1
severity_tag Severity.urgent = 2

abbrev pub severity_eq : Severity → Severity → Bool
severity_eq a b = severity_tag a == severity_tag b

pub record ExposureSignal : Type 0 where
  pub key : String
  pub severity : Severity
  pub observed_value : ℤ
  pub threshold : ℤ
  pub last_emitted_at : ℕ

pub data DeliveryStatus : Type 0 where
  pending delivered failed : DeliveryStatus

abbrev pub is_delivered : DeliveryStatus → Bool
is_delivered DeliveryStatus.delivered = Bool.true
is_delivered DeliveryStatus.pending = Bool.false
is_delivered DeliveryStatus.failed = Bool.false

-- The payload of a delivery is not kept.
pub record AlertDelivery : Type 0 where
  pub id : String
  pub action_name : String
  pub severity : Severity
  pub status : DeliveryStatus
  pub attempts : ℕ
  pub next_attempt_at : Option ℕ
  pub last_error : Option String
  pub delivered_at : Option ℕ
  pub acknowledged_at : Option ℕ
  pub acknowledged_by : Option String
  pub escalated_at : Option ℕ
  pub escalated_by : Option String
  pub created_at : ℕ

-- What `LedgerAlertPort` was asked to send.
pub data Alert : Type 0 where
  warning : String → String → Alert
  urgent : String → String → Alert
