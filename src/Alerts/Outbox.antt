-- ===== src/Alerts/Outbox.antt =====
-- `AdminAlertDispatcher` of zongo/apps/worker/src/admin-alert-dispatcher.service.ts. What it logs is not
-- kept.
use zongo_v.Prelude.{
  ℕ, ◌+◌, ◌*◌, ◌^◌, Bool, true, not, ◌&&◌, ◌||◌, Option, none, some, List, [], ◌∷◌, String,
  any_where, select_where, update_where, take, leb, ltb, str_eq, is_some, truthy, if◌then◌else◌,
}
use zongo_v.Prelude.Sorting.{sort_by}
use zongo_v.Db.Rows.{
  AlertDelivery, DeliveryStatus, is_delivered, Severity, severity_eq, technical, Db,
}
use zongo_v.Db.Env.{Env}
use zongo_v.Db.Monad.{Thrown, Action, ⊤, pure, gets, modify, when, transaction, ◌>>=◌, ◌>>◌}
use zongo_v.Ledger.Posting.{append_audit}

-- The webhooks of the administrators: their addresses in the environment, and what a request to one
-- of them throws, a bad status included.
pub record Webhooks : Type 0 where
  pub warning_url : Option String
  pub url : Option String
  pub post : String → AlertDelivery → Option Thrown

abbrev pub or_else : Option String → Option String → Option String
or_else none other = other
or_else (some text) other = some text

abbrev pub url_for : Webhooks → Severity → Option String
url_for w severity =
    if severity_eq severity Severity.warning then or_else w.warning_url w.url else w.url

abbrev pub has_delivery_id : String → AlertDelivery → Bool
has_delivery_id id d = str_eq d.id id

abbrev pub is_time : ℕ → Option ℕ → Bool
is_time now none = true
is_time now (some at) = leb at now

-- The `where` of the query.
unfoldable pub is_open : ℕ → AlertDelivery → Bool
is_open now d = not (is_delivered d.status) && is_time now d.next_attempt_at

unfoldable pub open_deliveries : ℕ → Db → List AlertDelivery
open_deliveries now db =
    take 20 (sort_by (λ d. d.created_at) (select_where (is_open now) db.alert_deliveries))

abbrev pub delivered : ℕ → AlertDelivery → AlertDelivery
delivered now d = record d {
  status = DeliveryStatus.delivered;
  attempts = d.attempts + 1;
  delivered_at = some now;
  next_attempt_at = none;
  last_error = none;
}

-- `attempts < 5`, with the failed attempt counted.
abbrev pub is_retryable : ℕ → Bool
is_retryable attempts = ltb attempts 5

abbrev pub next_time : ℕ → ℕ → Option ℕ
next_time now attempts = if is_retryable attempts then some (now + 1000 * 2 ^ attempts) else none

-- `updateData`, for the row that the query returned.
abbrev pub failed_again : Env → Thrown → AlertDelivery → AlertDelivery → AlertDelivery
failed_again env e read d = record d {
  status = DeliveryStatus.failed;
  attempts = d.attempts + 1;
  last_error = some (env.message e);
  next_attempt_at = next_time env.now (read.attempts + 1);
  escalated_at =
      if is_retryable (read.attempts + 1) || is_some read.escalated_at
      then d.escalated_at
      else some env.now;
}

unfoldable pub update_delivery : (AlertDelivery → Bool) → (AlertDelivery → AlertDelivery) → Action ⊤
update_delivery p f =
    modify (λ db. record db { alert_deliveries = update_where p f db.alert_deliveries })

-- The row, as long as nobody escalated it.
abbrev pub unescalated : String → AlertDelivery → Bool
unescalated id d = has_delivery_id id d && not (is_some d.escalated_at)

unfoldable pub escalate : Env → Thrown → AlertDelivery → Action ⊤
escalate env e read = do
  is_first ← gets (λ db. any_where (unescalated read.id) db.alert_deliveries)
  update_delivery (unescalated read.id) (failed_again env e read)
  when is_first (append_audit technical "admin.alert.delivery.escalated" none env.now)

unfoldable pub fail_delivery : Env → Thrown → AlertDelivery → Action ⊤
fail_delivery env e read =
    if is_retryable (read.attempts + 1) || is_some read.escalated_at
    then update_delivery (has_delivery_id read.id) (failed_again env e read)
    else transaction (escalate env e read)

abbrev pub settle_delivery : Env → AlertDelivery → Option Thrown → Action ⊤
settle_delivery env read none = update_delivery (has_delivery_id read.id) (delivered env.now)
settle_delivery env read (some e) = fail_delivery env e read

abbrev pub post_to : Webhooks → AlertDelivery → Option String → Option Thrown
post_to w d none = none
post_to w d (some address) = w.post address d

-- `deliver`
unfoldable pub deliver_alert : Env → Webhooks → AlertDelivery → Action ⊤
deliver_alert env w d =
    if truthy (url_for w d.severity)
    then settle_delivery env d (post_to w d (url_for w d.severity))
    else pure tt

unfoldable pub deliver_all : Env → Webhooks → List AlertDelivery → Action ⊤
deliver_all env w [] = pure tt
deliver_all env w (d ∷ ds) = deliver_alert env w d >> deliver_all env w ds

-- The body of `dispatch`, where the dispatcher is not running.
unfoldable pub dispatch_alerts : Env → Webhooks → Action ⊤
dispatch_alerts env w = do ds ← gets (open_deliveries env.now); deliver_all env w ds
