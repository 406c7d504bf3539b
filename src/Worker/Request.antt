-- ===== src/Worker/Request.antt =====
-- The request to the partner, in `process` of zongo/apps/worker/src/worker-job.processor.ts. The
-- `mobileNetwork` field, a constant of the deployment, is not kept; the payout account is the text
-- that `JSON.parse` reads.
use zongo_v.Prelude.{
  Bool, ◌&&◌, not, Option, none, some, String, find_where, str_eq, truthy, if◌then◌else◌,
}
use zongo_v.Prelude.Int.{ℤ}
use zongo_v.Db.Rows.{Transaction, Beneficiary, SenderProfile, Metadata, Currency, Db}
use zongo_v.Db.Env.{Env}
use zongo_v.Db.Monad.{Thrown, plain, Result, ok, err}
use zongo_v.Db.Checks.{◌>>=◌, some_or}
use zongo_v.Ledger.Posting.{LifecycleEvent}
use zongo_v.Worker.Ports.{PartnerRequest, Services}

-- `value ? value : undefined`
abbrev pub kept : Option String → Option String
kept o = if truthy o then o else none

abbrev decryption_failure : Thrown
decryption_failure = plain "Decryption failed"

-- A ciphertext that is there is decrypted, or the call throws.
abbrev pub decrypted : Env → String → Option String → Result (Option String)
decrypted env purpose none = ok none
decrypted env purpose (some text) = do
  value ← some_or (env.decrypt text purpose) decryption_failure
  ok (some value)

abbrev pub profile_with : String → SenderProfile → Bool
profile_with id p = str_eq p.id id

abbrev pub beneficiary_with : String → Beneficiary → Bool
beneficiary_with id b = str_eq b.id id

abbrev pub related : Option String → Db → Option Beneficiary
related none db = none
related (some id) db = find_where (beneficiary_with id) db.beneficiaries

abbrev pub sender_of : Option Metadata → Db → Option SenderProfile
sender_of none db = none
sender_of (some m) db = find_where (profile_with m.sender_profile_id) db.profiles

abbrev pub phone_of_sender : Env → Option SenderProfile → Result (Option String)
phone_of_sender env none = ok none
phone_of_sender env (some p) = elim p.sender_phone_number [
  | some number ↦ ok (some number)
  | none ↦ decrypted env "sender-phone" (kept p.sender_phone_ciphertext)
]

-- `senderPhoneNumber`, for a collection.
abbrev pub sender_phone :
    Env → Services → LifecycleEvent → Transaction → Db → Result (Option String)
sender_phone env services LifecycleEvent.payout t db = ok none
sender_phone env services LifecycleEvent.collection t db =
    if services.protected then phone_of_sender env (sender_of t.metadata db) else ok none

-- `beneficiaryId` and `beneficiary`: a payout goes to the retry beneficiary, where there is one.
abbrev pub beneficiary_id_of : LifecycleEvent → Transaction → String → String
beneficiary_id_of LifecycleEvent.collection t id = id
beneficiary_id_of LifecycleEvent.payout t id = elim (kept t.retry_beneficiary_id) [
  | none ↦ id
  | some retry ↦ retry
]

abbrev pub beneficiary_of : LifecycleEvent → Transaction → Db → Option Beneficiary
beneficiary_of LifecycleEvent.collection t db = related t.beneficiary_id db
beneficiary_of LifecycleEvent.payout t db = elim (related t.retry_beneficiary_id db) [
  | none ↦ related t.beneficiary_id db
  | some b ↦ some b
]

-- `payoutAccount`
abbrev pub account_of :
    Env → Services → LifecycleEvent → Option Beneficiary → Result (Option String)
account_of env services LifecycleEvent.collection b = ok none
account_of env services LifecycleEvent.payout none = ok none
account_of env services LifecycleEvent.payout (some b) =
    if services.protected
    then decrypted env "beneficiary-payout-account" (kept b.payout_account_ciphertext)
    else ok none

abbrev pub phone_of_beneficiary : Env → Services → Beneficiary → Result (Option String)
phone_of_beneficiary env services b =
    if truthy b.phone_number
    then ok b.phone_number
    else (if truthy b.phone_number_ciphertext && not services.protected
        then err (plain "Beneficiary phone protection is unavailable")
        else decrypted env "beneficiary-phone" (kept b.phone_number_ciphertext))

-- `payoutPhoneNumber`
abbrev pub payout_phone :
    Env → Services → LifecycleEvent → Option Beneficiary → Result (Option String)
payout_phone env services LifecycleEvent.collection b = ok none
payout_phone env services LifecycleEvent.payout none = ok none
payout_phone env services LifecycleEvent.payout (some b) = phone_of_beneficiary env services b

abbrev money_missing : Thrown
money_missing = plain "Payout money is required to process a payout"

-- `amountMinor` and `currency`: what is sent for a collection, what is paid out for a payout.
abbrev pub money_of : LifecycleEvent → Transaction → Result (ℤ × Currency)
money_of LifecycleEvent.collection t = ok (t.send_amount, t.send_currency)
money_of LifecycleEvent.payout t = do
  amount ← some_or t.payout_amount money_missing
  currency ← some_or t.payout_currency money_missing
  ok (amount, currency)

unfoldable pub request_of :
    Env → Services → LifecycleEvent → Transaction → Db → Result PartnerRequest
request_of env services leg t db = do
  id ← some_or (kept t.beneficiary_id) (plain "A beneficiary is required to process a transfer")
  sender ← sender_phone env services leg t db
  account ← account_of env services leg (beneficiary_of leg t db)
  phone ← payout_phone env services leg (beneficiary_of leg t db)
  money ← money_of leg t
  ok record {
    reference = t.reference;
    amount = money.0;
    currency = money.1;
    beneficiary_id = beneficiary_id_of leg t id;
    sender_phone_number = kept sender;
    payout_phone_number = kept phone;
    payout_account = account;
  }
