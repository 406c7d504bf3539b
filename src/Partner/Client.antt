-- ===== src/Partner/Client.antt =====
-- `PretiumHttpClient` of zongo/libs/partner/src/lib/pretium-adapter.ts. `fetch` and the parsing of
-- JSON are parameters.
use zongo_v.Prelude.{
  ℕ, Bool, false, ◌&&◌, ◌||◌, not, Option, none, some, get_or, String, leb, truthy, if◌then◌else◌,
}
use zongo_v.Prelude.Int.{ℤ, pos, ltb_ℤ, leb_ℤ}
use zongo_v.Domain.Lifecycle.{TransferStatus}
use zongo_v.Db.Rows.{Currency}
use zongo_v.Db.Env.{Env}
use zongo_v.Worker.Ports.{PartnerRequest, PartnerError, Phase}
use zongo_v.Partner.Status.{lookup_status, initiation_status}

-- What a call of the client throws: a `PartnerError`, or another error with its message and, for a
-- `PretiumHttpError`, its HTTP status.
pub data ClientError : Type 0 where
  partner : PartnerError → ClientError
  http : ℕ → String → ClientError
  other : String → ClientError

pub data Attempt (A : Type 0) : Type 0 where
  done : A → Attempt A
  failed : ClientError → Attempt A

infixl 5 ◌>>=◌
abbrev pub ◌>>=◌ : {A B : Type 0} → Attempt A → (A → Attempt B) → Attempt B
done a >>= f = f a
failed e >>= f = failed e

-- A field of parsed JSON that is there and not null.
pub data Field : Type 0 where
  text : String → Field
  other : Field

-- The fields of `data` that the client reads.
pub record PretiumData : Type 0 where
  pub status : Option Field
  pub transaction_code : Option Field
  pub transaction_code_camel : Option Field

-- A field that is a text.
abbrev pub text_of : Option Field → Option String
text_of none = none
text_of (some (Field.text s)) = some s
text_of (some Field.other) = none

pub record Response : Type 0 where
  pub ok : Bool
  pub http_status : ℕ
  pub code : Option ℕ
  pub message : Option String
  pub data_field : Option PretiumData

-- `JSON.parse` of a payout account.
pub record Account : Type 0 where
  pub kind : Option String
  pub number : Option String
  pub number_snake : Option String
  pub network : Option String
  pub network_snake : Option String

pub data Body : Type 0 where
  collect : Currency → String → ℤ → Option String → String → Body
  disburse : Currency → String → ℤ → String → Option String → Option String → String → Body
  status : Currency → String → Body

pub record Wire : Type 0 where
  -- `fetch` and `response.json()`; what it throws is an error with a message
  pub fetch : Body → Attempt Response
  pub parse_account : String → Account
  -- `process.env.PRETIUM_MOBILE_NETWORK`
  pub mobile_network : Option String

-- `post`
abbrev pub is_error_code : Option ℕ → Bool
is_error_code none = false
is_error_code (some code) = leb 400 code

abbrev pub data_of : Response → Attempt PretiumData
data_of r = elim r.data_field [
  | some d ↦ done d
  | none ↦ failed (ClientError.http r.http_status "Pretium response omitted data")
]

abbrev pub check_response : Response → Attempt PretiumData
check_response r =
    if not r.ok || is_error_code r.code
    then failed (ClientError.http r.http_status (get_or r.message "Pretium request failed"))
    else data_of r

unfoldable pub post : Wire → Body → Attempt PretiumData
post wire body = do r ← wire.fetch body; check_response r

abbrev pub max_safe_integer : ℤ
max_safe_integer = pos 9007199254740991

-- `Number.isSafeInteger(amount) && amount > 0`
abbrev pub is_exact : ℤ → Bool
is_exact amount = ltb_ℤ (pos 0) amount && leb_ℤ amount max_safe_integer

-- `amount`
unfoldable pub exact_amount : ℤ → Attempt ℤ
exact_amount amount =
    if is_exact amount
    then done amount
    else failed (ClientError.other "Pretium amount is outside the exact numeric range")

-- `a ?? b`
abbrev pub first_of : {A : Type 0} → Option A → Option A → Option A
first_of none b = b
first_of (some a) b = some a

abbrev no_code : ClientError
no_code = ClientError.other "Pretium response omitted transaction_code"

abbrev pub nonempty : Option String → Attempt String
nonempty none = failed no_code
nonempty (some r) = if truthy (some r) then done r else failed no_code

-- `reference`
abbrev pub code_of : PretiumData → Attempt String
code_of d = nonempty (text_of (first_of d.transaction_code d.transaction_code_camel))

abbrev pub phone_or : Option String → String → Attempt String
phone_or none message = failed (ClientError.other message)
phone_or (some p) message = if truthy (some p) then done p else failed (ClientError.other message)

-- What the client answers: the partner's reference and the status.
pub record Accepted : Type 0 where
  pub partner_reference : String
  pub status : TransferStatus

unfoldable pub client_collect : Env → Wire → PartnerRequest → Attempt Accepted
client_collect env wire r = do
  phone ← phone_or r.sender_phone_number "Pretium collection phone is unavailable"
  amount ← exact_amount r.amount
  d ← post wire (Body.collect r.currency phone amount wire.mobile_network r.reference)
  code ← code_of d
  done record {
    partner_reference = code;
    status = initiation_status env Phase.collection (text_of d.status);
  }

abbrev no_account : Account
no_account = record {
  kind = none;
  number = none;
  number_snake = none;
  network = none;
  network_snake = none;
}

abbrev pub account_of : Wire → Option String → Account
account_of wire none = no_account
account_of wire (some json) = wire.parse_account json

abbrev pub disburse_body : Wire → PartnerRequest → Account → String → ℤ → Body
disburse_body wire r account phone amount =
    Body.disburse r.currency phone amount (get_or account.kind "MOBILE")
      (first_of account.number account.number_snake)
      (first_of wire.mobile_network (first_of account.network account.network_snake)) r.reference

unfoldable pub client_payout : Env → Wire → PartnerRequest → Attempt Accepted
client_payout env wire r = do
  phone ← phone_or r.payout_phone_number "Pretium payout phone is unavailable"
  amount ← exact_amount r.amount
  d ← post wire (disburse_body wire r (account_of wire r.payout_account) phone amount)
  code ← code_of d
  done record {
    partner_reference = code;
    status = initiation_status env Phase.payout (text_of d.status);
  }

abbrev pub phase_currency : Phase → Currency
phase_currency Phase.collection = Currency.cdf
phase_currency Phase.payout = Currency.kes

unfoldable pub client_status : Env → Wire → String → Phase → Attempt Accepted
client_status env wire reference phase = do
  d ← post wire (Body.status (phase_currency phase) reference)
  code ← code_of d
  done record { partner_reference = code; status = lookup_status env phase (text_of d.status) }
