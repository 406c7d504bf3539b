-- ===== src/Alerts/Retries.antt =====
-- The retries of zongo/apps/worker/src/admin-alert-dispatcher.service.ts.
use text.Mathlib.TextPositions.{eq_refl}
use zongo_v.Prelude.{
  ℕ, ◌+◌, ◌*◌, ◌^◌, ◌≡◌, refl, ap, ◌∙◌, true, ◌||◌, inl, inr, Option, some, String, find_where,
  find_where-update_where, find_where-update_selected, any_where, leb, ltb, is_some, Bool-cases,
  arith, if◌then◌else◌,
}
use zongo_v.Db.Rows.{AlertDelivery, Db}
use zongo_v.Db.Env.{Env}
use zongo_v.Db.Monad.{Thrown, ◌>>=◌}
use zongo_v.Alerts.Outbox.{
  has_delivery_id, is_open, is_retryable, failed_again, unescalated, update_delivery, escalate,
  fail_delivery,
}

abbrev pub row_of : String → Db → Option AlertDelivery
row_of id db = find_where (has_delivery_id id) db.alert_deliveries

module _ (env : Env) (e : Thrown) (read : AlertDelivery) (db : Db) where
  failed-go :
      (row : AlertDelivery)
      → failed_again env e read read ≡ row
      → row_of read.id db ≡ some read
      → row_of read.id (fail_delivery env e read db).1 ≡ some row
  unfolding fail_delivery escalate update_delivery ◌>>=◌
  failed-go row same found =
      elim (Bool-cases (is_retryable (read.attempts + 1) || is_some read.escalated_at)) [
        | inl again ↦ rw again (
            find_where-update_where (has_delivery_id read.id) (failed_again env e read)
              db.alert_deliveries (λ x. refl) found
            ∙ ap some same)
        | inr last ↦
            let first : unescalated read.id read ≡ true = ground (arith, last, eq_refl read.id) in
            let updated =
              find_where-update_selected (has_delivery_id read.id) (unescalated read.id)
                (failed_again env e read) db.alert_deliveries (λ x. refl) found first in
            rw last (elim (Bool-cases (any_where (unescalated read.id) db.alert_deliveries)) [
              | inl some_row ↦ rw some_row (updated ∙ ap some same)
              | inr no_row ↦ rw no_row (updated ∙ ap some same)
            ])
      ]

  reopened_at :
      (later : ℕ)
      → is_open later (failed_again env e read read) ≡ (
          if is_retryable (read.attempts + 1)
          then leb (env.now + 1000 * 2 ^ (read.attempts + 1)) later
          else true)
  unfolding is_open
  reopened_at later = ground arith

  escalated_last :
      is_retryable (read.attempts + 1) || is_some (failed_again env e read read).escalated_at ≡ true
  escalated_last = elim (Bool-cases (is_retryable (read.attempts + 1))) [
    | inl x ↦ rw x refl
    | inr x ↦ elim (Bool-cases (is_some read.escalated_at)) [
      | inl y ↦ rw (x, y) (rw y refl)
      | inr y ↦ rw (x, y) refl
    ]
  ]

  -- A delivery whose attempt failed counts it. Before the fifth failure it is open again
  -- (`is_open`, the `where` of the dispatcher's query) after twice the last delay. From the fifth on
  -- it is escalated, and is open at any time.
  pub fail_delivery-reopens :
      row_of read.id db ≡ some read
      → (later : ℕ)
      → (row : AlertDelivery) × (row_of read.id (fail_delivery env e read db).1 ≡ some row)
        × (row.attempts ≡ read.attempts + 1)
        × (is_open later row ≡ (
            if ltb (read.attempts + 1) 5
            then leb (env.now + 1000 * 2 ^ (read.attempts + 1)) later
            else true))
        × (ltb (read.attempts + 1) 5 || is_some row.escalated_at ≡ true)
  fail_delivery-reopens found later = (
    failed_again env e read read,
    failed-go (failed_again env e read read) refl found,
    refl,
    reopened_at later,
    escalated_last,
  )
