-- ===== src/Tests/BeneficiaryExamples.antt =====
-- Beneficiaries and their revisions, at concrete inputs.
use zongo_v.Prelude.{◌≡◌, refl, Bool-cases, inl, inr, String, str_eq, none, arith}
use zongo_v.Db.Rows.{Currency, Db}
use zongo_v.Db.Monad.{ok, err, domain, beneficiary_not_available, ◌>>=◌}
use zongo_v.Beneficiary.Revisions.{
  Changes, BeneficiaryDetails, revision, revise, row_with, supersede, add_beneficiary,
  create_beneficiary,
}
use zongo_v.Beneficiary.Selection.{select_for_transfer}
use zongo_v.Beneficiary.Targets.{OneCurrent, OneCurrent-kept}
use zongo_v.Beneficiary.Choices.{revise-select}
use zongo_v.Tests.Data.{test_env, later_env, test_db, family}

abbrev new_phone : Changes
new_phone = record {
  display_name = "Family";
  payout_country_code = "KE";
  payout_currency = Currency.kes;
  phone_number = "+255";
  payout_account = none;
}

one_row : OneCurrent test_db
one_row name = elim (Bool-cases (str_eq "f1" name)) [
  | inl e ↦ rw e (omega arith)
  | inr e ↦ rw e (omega arith)
]

OneCurrent-kept_example :
    ((id : String) (changes : Changes) → OneCurrent (revise test_env id changes test_db).1)
    × ((details : BeneficiaryDetails) → OneCurrent (create_beneficiary test_env details test_db).1)
OneCurrent-kept_example = OneCurrent-kept test_env test_db one_row refl

abbrev revised_db : Db
revised_db = (revise test_env "b1" new_phone test_db).1

revision-Done :
    revise test_env "b1" new_phone test_db ≡ (ok (revision test_env new_phone family), revised_db)
unfolding revise row_with supersede add_beneficiary ◌>>=◌
revision-Done = refl

revise-select_example :
    (select_for_transfer later_env "beneficiary" "u1" "us-ke" revised_db
      ≡ ok (record { row = revision test_env new_phone family; phone_number = "+255" }))
    × ((user_id corridor_id : String)
        → select_for_transfer later_env "b1" user_id corridor_id revised_db
          ≡ err (domain beneficiary_not_available))
revise-select_example =
    revise-select test_env later_env "b1" new_phone test_db revision-Done refl refl refl refl
