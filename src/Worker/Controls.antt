-- ===== src/Worker/Controls.antt =====
-- The operational controls that hold back a job, in `process` of
-- zongo/apps/worker/src/worker-job.processor.ts.
use zongo_v.Prelude.{
  Bool, true, false, ◌||◌, not, none, some, List, [], ◌∷◌, String, find_where, any_where,
  select_where, if◌then◌else◌,
}
use zongo_v.Db.Rows.{PilotControl, ControlKey, Payload, control_key_eq, is_enabled, technical}
use zongo_v.Db.Env.{Env}
use zongo_v.Db.Monad.{Action, ⊤, ◌>>◌}
use zongo_v.Ledger.Posting.{append_audit}
use zongo_v.Ledger.Posting.{LifecycleEvent}
use zongo_v.Worker.Store.{update_job, postponed_job}

abbrev pub is_manual : Payload → Bool
is_manual (Payload.manual transaction_id corrected) = true
is_manual Payload.manual_flag = true
is_manual (Payload.reference r) = false
is_manual (Payload.reason r) = false
is_manual (Payload.callback r s) = false
is_manual (Payload.sweep r bucket) = false
is_manual (Payload.intent id) = false
is_manual (Payload.requested_by id) = false

abbrev pub leg_key : LifecycleEvent → ControlKey
leg_key LifecycleEvent.collection = ControlKey.collection
leg_key LifecycleEvent.payout = ControlKey.payout

-- `manualPayout`
abbrev pub manual_payout : LifecycleEvent → Payload → Bool
manual_payout LifecycleEvent.collection payload = false
manual_payout LifecycleEvent.payout payload = is_manual payload

abbrev pub has_key : ControlKey → PilotControl → Bool
has_key key c = control_key_eq c.key key

abbrev pub has_key_in : List ControlKey → PilotControl → Bool
has_key_in keys c = any_where (λ key. has_key key c) keys

-- `controls.find((control) => control.key === key)?.state !== 'ENABLED'`
abbrev pub is_unavailable : List PilotControl → ControlKey → Bool
is_unavailable controls key = elim (find_where (has_key key) controls) [
  | none ↦ true
  | some c ↦ not (is_enabled c.state)
]

abbrev pub notification_keys : List ControlKey
notification_keys = ControlKey.global ∷ ControlKey.notification ∷ []

unfoldable pub notifications_paused : List PilotControl → Bool
notifications_paused rows =
    let controls = select_where (has_key_in notification_keys) rows in
    any_where (is_unavailable controls) notification_keys

abbrev pub control_keys : LifecycleEvent → List ControlKey
control_keys leg = ControlKey.global ∷ ControlKey.corridor_provider ∷ leg_key leg ∷ []

abbrev pub required_keys : LifecycleEvent → Payload → List ControlKey
required_keys leg payload =
    if manual_payout leg payload then ControlKey.corridor_provider ∷ [] else control_keys leg

abbrev pub blocked_controls : LifecycleEvent → Payload → List PilotControl → List PilotControl
blocked_controls leg payload controls =
    if manual_payout leg payload
    then select_where (has_key ControlKey.corridor_provider) controls
    else controls

unfoldable pub money_paused : LifecycleEvent → Payload → List PilotControl → Bool
money_paused leg payload rows =
    let controls = select_where (has_key_in (control_keys leg)) rows in
    any_where (is_unavailable controls) (required_keys leg payload)
    || any_where (λ c. not (is_enabled c.state)) (blocked_controls leg payload controls)

-- What a paused job leaves: the job waits again.
unfoldable pub postpone_notification : String → Action ⊤
postpone_notification id =
    update_job id (postponed_job "Pilot notifications are paused by operational control")

unfoldable pub postpone_money : Env → String → Action ⊤
postpone_money env id = do
  update_job id (postponed_job "Pilot money movement is paused by operational control")
  append_audit technical "worker.job.paused-by-operational-control" none env.now
