-- ===== src/Beneficiary/Revisions.antt =====
-- The writes of zongo/libs/beneficiary/src/beneficiary.service.ts. The payout account is the text of
-- its JSON.
use zongo_v.Prelude.{
  ℕ, ◌+◌, Bool, true, false, not, ◌&&◌, Option, none, some, [], ◌∷◌, ◌++◌, String, update_where,
  any_where, str_eq, ◌==◌,
}
use zongo_v.Db.Rows.{Beneficiary, Currency, business}
use zongo_v.Db.Env.{Env}
use zongo_v.Db.Monad.{
  domain, not_found, unique_violation, beneficiary_not_current, Action, ⊤, pure, gets, or_throw,
  modify, throw_if, ◌>>=◌, ◌>>◌,
}
use zongo_v.Ledger.Posting.{append_audit}
use zongo_v.Transfer.Checks.{beneficiary_by}
use zongo_v.Profile.Accounts.{sealed}

pub record BeneficiaryDetails : Type 0 where
  pub user_id : String
  pub corridor_id : String
  pub display_name : String
  pub payout_country_code : String
  pub payout_currency : Currency
  pub phone_number : String
  pub payout_account : Option String

-- `Omit<BeneficiaryDetails, 'userId' | 'corridorId'>`
pub record Changes : Type 0 where
  pub display_name : String
  pub payout_country_code : String
  pub payout_currency : Currency
  pub phone_number : String
  pub payout_account : Option String

-- The defaults of a new row: a family of its own, in version 1.
abbrev pub new_beneficiary : Env → BeneficiaryDetails → Beneficiary
new_beneficiary env details = record {
  id = env.new_id "beneficiary";
  family_id = env.new_id "family";
  corridor_id = details.corridor_id;
  user_id = details.user_id;
  display_name = details.display_name;
  payout_country_code = details.payout_country_code;
  payout_currency = details.payout_currency;
  phone_number = none;
  phone_number_ciphertext = some (env.encrypt details.phone_number "beneficiary-phone");
  phone_number_blind_index = some (env.blind_index details.phone_number "beneficiary-phone");
  payout_account_ciphertext = sealed env "beneficiary-payout-account" details.payout_account;
  version = 1;
  supersedes_id = none;
  is_current = true;
}

-- `@@unique([familyId, version])`
abbrev pub has_version : String → ℕ → Beneficiary → Bool
has_version family version b = str_eq b.family_id family && b.version == version

unfoldable pub add_beneficiary : Beneficiary → Action ⊤
add_beneficiary b = do
  taken ← gets (λ db. any_where (has_version b.family_id b.version) db.beneficiaries)
  throw_if taken unique_violation
  modify (λ db. record db { beneficiaries = db.beneficiaries ++ b ∷ [] })

unfoldable pub create_beneficiary : Env → BeneficiaryDetails → Action Beneficiary
create_beneficiary env details = do
  add_beneficiary (new_beneficiary env details)
  append_audit business "beneficiary.created" none env.now
  pure (new_beneficiary env details)

abbrev pub revision : Env → Changes → Beneficiary → Beneficiary
revision env changes previous = record {
  id = env.new_id "beneficiary";
  family_id = previous.family_id;
  corridor_id = previous.corridor_id;
  user_id = previous.user_id;
  display_name = changes.display_name;
  payout_country_code = changes.payout_country_code;
  payout_currency = changes.payout_currency;
  phone_number = none;
  phone_number_ciphertext = some (env.encrypt changes.phone_number "beneficiary-phone");
  phone_number_blind_index = some (env.blind_index changes.phone_number "beneficiary-phone");
  payout_account_ciphertext = sealed env "beneficiary-payout-account" changes.payout_account;
  version = previous.version + 1;
  supersedes_id = some previous.id;
  is_current = true;
}

abbrev pub is_row : String → Beneficiary → Bool
is_row id b = str_eq b.id id

abbrev pub retired : Beneficiary → Beneficiary
retired b = record b { is_current = false }

-- The two writes of a revision, which are not in a transaction.
unfoldable pub supersede : Env → Changes → Beneficiary → Action Beneficiary
supersede env changes previous = do
  add_beneficiary (revision env changes previous)
  modify (λ db. record db {
    beneficiaries = update_where (is_row previous.id) retired db.beneficiaries;
  })
  append_audit business "beneficiary.revised" none env.now
  pure (revision env changes previous)

-- `findUniqueOrThrow({ where: { id } })`
unfoldable pub row_with : String → Action Beneficiary
row_with id = do found ← gets (λ db. beneficiary_by id db.beneficiaries); or_throw found not_found

unfoldable pub revise : Env → String → Changes → Action Beneficiary
revise env id changes = do
  previous ← row_with id
  throw_if (not previous.is_current) (domain beneficiary_not_current)
  supersede env changes previous
