-- ===== src/Beneficiary/Selection.antt =====
-- The reads of zongo/libs/beneficiary/src/beneficiary.service.ts, and `setRetryTarget`. The rows have
-- no `createdAt`: the order of the list by it is a parameter.
use zongo_v.Prelude.{
  Bool, ◌&&◌, ◌||◌, not, Option, none, some, List, [], ◌∷◌, String, select_where, str_eq, truthy,
  get_or,
}
use zongo_v.Domain.Lifecycle.{TransferStatus, status_eq}
use zongo_v.Db.Rows.{Beneficiary, Transaction, business, Db}
use zongo_v.Db.Env.{Env}
use zongo_v.Db.Monad.{
  domain, not_found, beneficiary_phone_required, beneficiary_not_available, transfer_not_retryable,
  Result, ok, Action, ⊤, pure, gets, reads, or_throw, throw_if,
}
use zongo_v.Db.Monad
use zongo_v.Db.Checks.{◌>>=◌, ◌>>◌, reject_if, some_or}
use zongo_v.Ledger.Posting.{append_audit}
use zongo_v.Transfer.Checks.{beneficiary_by}
use zongo_v.Worker.Request.{kept, decrypted}
use zongo_v.Worker.Store.{transaction_with, update_transaction}

-- A beneficiary with the phone that it is paid at.
pub record Revealed : Type 0 where
  pub row : Beneficiary
  pub phone_number : String

abbrev pub phone_of : Env → Beneficiary → Result (Option String)
phone_of env b = elim b.phone_number [
  | some number ↦ ok (some number)
  | none ↦ decrypted env "beneficiary-phone" (kept b.phone_number_ciphertext)
]

-- `revealPhone`
unfoldable pub reveal_phone : Env → Beneficiary → Result Revealed
reveal_phone env b = do
  phone ← phone_of env b
  reject_if (not (truthy phone)) (domain beneficiary_phone_required)
  ok (record { row = b; phone_number = get_or phone "" })

-- `Promise.all(beneficiaries.map(…))`: one failure fails the list.
unfoldable pub reveal_all : Env → List Beneficiary → Result (List Revealed)
reveal_all env [] = ok []
reveal_all env (b ∷ bs) = do r ← reveal_phone env b; rs ← reveal_all env bs; ok (r ∷ rs)

abbrev pub is_saved : String → String → Beneficiary → Bool
is_saved user_id corridor_id b =
    str_eq b.user_id user_id && str_eq b.corridor_id corridor_id && b.is_current

unfoldable pub list_saved :
    Env → (List Beneficiary → List Beneficiary) → String → String → Db → Result (List Revealed)
list_saved env newest_first user_id corridor_id db =
    reveal_all env (newest_first (select_where (is_saved user_id corridor_id) db.beneficiaries))

unfoldable pub select_for_transfer : Env → String → String → String → Db → Result Revealed
select_for_transfer env id user_id corridor_id db = do
  b ← some_or (beneficiary_by id db.beneficiaries) not_found
  reject_if
      (not (str_eq b.user_id user_id) || not (str_eq b.corridor_id corridor_id) || not b.is_current)
      (domain beneficiary_not_available)
  reveal_phone env b

abbrev pub retargeted : String → Transaction → Transaction
retargeted id t = record t { retry_beneficiary_id = some id }

-- The writes of a retry target.
unfoldable pub retarget : Env → Transaction → String → Action ⊤
retarget env t id =
    Monad.◌>>◌ (update_transaction t.id (retargeted id))
      (append_audit business "beneficiary.retry-target.set" (some t.id) env.now)

unfoldable pub set_retry_target : Env → String → String → Action ⊤
set_retry_target env transaction_id beneficiary_id =
    Monad.◌>>=◌ (transaction_with transaction_id) λ t.
      Monad.◌>>◌
        (throw_if (not (status_eq t.status TransferStatus.payout_failed))
          (domain transfer_not_retryable))
        (Monad.◌>>=◌ (reads (select_for_transfer env beneficiary_id t.sender_user_id t.corridor_id))
          λ b. retarget env t b.row.id)
