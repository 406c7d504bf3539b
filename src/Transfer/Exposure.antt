-- ===== src/Transfer/Exposure.antt =====
-- The pilot exposure limits of `initiate` in
-- zongo/libs/transfer/src/transfer-initiation.service.ts.
use zongo_v.Prelude.{ℕ, Bool, false, Option, none, some, count_where, leb}
use zongo_v.Prelude.Int.{ℤ, pos, ◌+ℤ◌, ltb_ℤ, sum_where}
use zongo_v.Domain.Lifecycle.{TransferStatus, status_eq}
use zongo_v.Db.Rows.{Transaction, ExposurePolicy, Db}
use zongo_v.Db.Env.{Env}
use zongo_v.Db.Monad.{
  domain, Result, ok, ⊤, pending_exposure_limit_exceeded, global_exposure_limit_exceeded,
  ambiguous_exposure_limit_exceeded, recovery_capacity_exceeded,
  partner_settlement_exposure_limit_exceeded,
}
use zongo_v.Db.Checks.{◌>>◌, reject_if}
use zongo_v.Exposure.Monitor.{is_pending, is_waiting, is_payout_failed, since}
use zongo_v.Transfer.Input.{InitiateTransferInput}

-- `limit !== null && count >= limit`
abbrev pub reaches : Option ℕ → ℕ → Bool
reaches none count = false
reaches (some limit) count = leb limit count

-- `limit !== null && sum + amount > limit`
abbrev pub exceeds : Option ℤ → ℤ → Bool
exceeds none sum = false
exceeds (some limit) sum = ltb_ℤ limit sum

abbrev pub is_pending_payout : Transaction → Bool
is_pending_payout t = status_eq t.status TransferStatus.pending_payout

-- A null payout amount adds nothing.
abbrev pub payout_of : Transaction → ℤ
payout_of t = elim t.payout_amount [ none ↦ pos 0 | some amount ↦ amount ]

unfoldable pub check_policy : Env → InitiateTransferInput → ExposurePolicy → Db → Result ⊤
check_policy env input policy db = do
  reject_if (reaches policy.max_pending_transfers (count_where is_pending db.transactions))
      (domain pending_exposure_limit_exceeded)
  reject_if
      (exceeds policy.global_daily_send (
        sum_where (since env.start_of_day) (λ t. t.send_amount) db.transactions
        +ℤ input.send_amount))
      (domain global_exposure_limit_exceeded)
  reject_if (reaches policy.max_ambiguous_transfers (count_where is_waiting db.sessions))
      (domain ambiguous_exposure_limit_exceeded)
  reject_if (reaches policy.max_recovery_capacity (count_where is_payout_failed db.transactions))
      (domain recovery_capacity_exceeded)
  reject_if
      (exceeds policy.max_partner_settlement
        (sum_where is_pending_payout payout_of db.transactions +ℤ input.payout_amount))
      (domain partner_settlement_exposure_limit_exceeded)

-- Without a policy row there is no exposure limit.
unfoldable pub check_exposure : Env → InitiateTransferInput → Db → Result ⊤
unfolding check_policy
check_exposure env input db = elim db.exposure_policy [
  | none ↦ ok tt
  | some policy ↦ check_policy env input policy db
]
