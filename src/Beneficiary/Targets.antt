-- ===== src/Beneficiary/Targets.antt =====
-- What the writes of zongo/libs/beneficiary/src/beneficiary.service.ts keep, and what its reads allow.
use text.Mathlib.TextEquality.{eq_iff}
use zongo_v.Prelude.{
  ◌+◌, ◌≤◌, ◌≡◌, refl, sym, ap, ◌∙◌, inl, inr, Bool, true, false, ◌&&◌, Option, none, some, List,
  [], ◌∷◌, ◌++◌, String, find_where, update_where, count_where, any_where, str_eq, find_where_holds,
  count_where-append, find_where-append_some, Bool-cases, arith,
}
use zongo_v.Db.Rows.{Beneficiary, Db}
use zongo_v.Db.Env.{Env}
use zongo_v.Db.Monad.{◌>>=◌}
use zongo_v.Transfer.Checks.{beneficiary_by}
use zongo_v.Beneficiary.Revisions.{
  BeneficiaryDetails, Changes, new_beneficiary, create_beneficiary, add_beneficiary, has_version,
  revision, is_row, retired, supersede, row_with, revise,
}

-- The current revision of a family.
abbrev pub is_current_of : String → Beneficiary → Bool
is_current_of family b = str_eq b.family_id family && b.is_current

-- No family has two current revisions.
abbrev pub OneCurrent : Db → Type 0
OneCurrent db = (family : String) → count_where (is_current_of family) db.beneficiaries ≤ 1

count-retired :
    (family id : String) (bs : List Beneficiary)
    → count_where (is_current_of family) (update_where (is_row id) retired bs)
      ≤ count_where (is_current_of family) bs
count-retired family id [] = omega arith
count-retired family id (b ∷ bs) = ground (arith, count-retired family id bs)

-- Retiring a current revision leaves its family one less.
count-retired_found :
    (family id : String) (bs : List Beneficiary) {c : Beneficiary}
    → find_where (is_row id) bs ≡ some c
    → is_current_of family c ≡ true
    → count_where (is_current_of family) (update_where (is_row id) retired bs) + 1
      ≤ count_where (is_current_of family) bs
count-retired_found family id [] e h = cc
count-retired_found family id (b ∷ bs) {c} e h =
    ground (arith, count-retired family id bs, count-retired_found family id bs {c = c})

revised-count :
    (env : Env) (changes : Changes) (previous : Beneficiary) (family : String)
    → (bs : List Beneficiary) (id : String) → find_where (is_row id) bs ≡ some previous
    → previous.is_current ≡ true
    → count_where (is_current_of family) bs ≤ 1
    → count_where
        (is_current_of family)
        (update_where (is_row previous.id) retired (bs ++ revision env changes previous ∷ []))
      ≤ 1
revised-count env changes previous family bs id found current h =
    let next = revision env changes previous in
    let same : previous.id ≡ id =
      (eq_iff previous.id id).0 (find_where_holds (is_row id) bs found) in
    let there : find_where (is_row previous.id) (bs ++ next ∷ []) ≡ some previous =
      find_where-append_some (is_row previous.id) bs (next ∷ [])
        (ap (λ i. find_where (is_row i) bs) same ∙ found) in
    let total = count_where-append (is_current_of family) bs (next ∷ []) in
    let less = count-retired family previous.id (bs ++ next ∷ []) in
    elim (Bool-cases (str_eq previous.family_id family)) [
      | inl e ↦
          let one =
            count-retired_found family previous.id (bs ++ next ∷ []) there (rw (e, current) refl) in
          omega (arith, one, total, h, next_counts e)
      | inr e ↦ omega (arith, less, total, h, next_not e)
    ]
  where
    next_counts :
        str_eq previous.family_id family ≡ true
        → count_where (is_current_of family) (revision env changes previous ∷ []) ≡ 1
    next_counts e = rw e refl

    next_not :
        str_eq previous.family_id family ≡ false
        → count_where (is_current_of family) (revision env changes previous ∷ []) ≡ 0
    next_not e = rw e refl

module _ (env : Env) (changes : Changes) where
  supersede-OneCurrent :
      (previous : Beneficiary) (db : Db) (id : String)
      → find_where (is_row id) db.beneficiaries ≡ some previous
      → previous.is_current ≡ true
      → OneCurrent db
      → OneCurrent (supersede env changes previous db).1
  unfolding supersede add_beneficiary ◌>>=◌
  supersede-OneCurrent previous db id found current h family =
      let taken =
        any_where (has_version previous.family_id (previous.version + 1)) db.beneficiaries in
      elim (Bool-cases taken) [
        | inl e ↦ rw e (h family)
        | inr e ↦
            rw e (
              revised-count env changes previous family db.beneficiaries id found current
                (h family))
      ]

  revise-go :
      (db : Db) (id : String) (o : Option Beneficiary)
      → beneficiary_by id db.beneficiaries ≡ o
      → OneCurrent db
      → OneCurrent (revise env id changes db).1
  unfolding revise row_with ◌>>=◌ supersede
  revise-go db id none e h = rw e h
  revise-go db id (some b) e h = elim (Bool-cases b.is_current) [
    | inl current ↦ rw (e, current) (supersede-OneCurrent b db id e current h)
    | inr old ↦ rw (e, old) h
  ]

created-count :
    (env : Env) (details : BeneficiaryDetails) (family : String) (bs : List Beneficiary)
    → count_where (is_current_of family) bs ≤ 1
    → count_where (is_current_of (env.new_id "family")) bs ≡ 0
    → count_where (is_current_of family) (bs ++ new_beneficiary env details ∷ []) ≤ 1
created-count env details family bs h fresh =
    let total = count_where-append (is_current_of family) bs (new_beneficiary env details ∷ []) in
    elim (Bool-cases (str_eq (env.new_id "family") family)) [
      | inl e ↦
          let same = (eq_iff (env.new_id "family") family).0 e in
          let none_yet : count_where (is_current_of family) bs ≡ 0 =
            ap (λ f. count_where (is_current_of f) bs) (sym same) ∙ fresh in
          rw (total, e, none_yet) (omega arith)
      | inr e ↦ rw (total, e) (omega (arith, h))
    ]

create-OneCurrent :
    (env : Env) (details : BeneficiaryDetails) (db : Db)
    → OneCurrent db
    → count_where (is_current_of (env.new_id "family")) db.beneficiaries ≡ 0
    → OneCurrent (create_beneficiary env details db).1
unfolding create_beneficiary add_beneficiary ◌>>=◌
create-OneCurrent env details db h fresh family =
    elim (Bool-cases (any_where (has_version (env.new_id "family") 1) db.beneficiaries)) [
      | inl e ↦ rw e (h family)
      | inr e ↦ rw e (created-count env details family db.beneficiaries (h family) fresh)
    ]

-- A family of beneficiaries keeps at most one current revision, whether an operation returns or
-- throws: a revision adds one and retires the row that it revises, and a new beneficiary starts a
-- family, since the identifier that it generates is not in use.
pub OneCurrent-kept :
    (env : Env) (db : Db)
    → OneCurrent db
    → count_where (is_current_of (env.new_id "family")) db.beneficiaries ≡ 0
    → ((id : String) (changes : Changes) → OneCurrent (revise env id changes db).1)
      × ((details : BeneficiaryDetails) → OneCurrent (create_beneficiary env details db).1)
OneCurrent-kept env db h fresh = (
  λ id changes. revise-go env changes db id _ refl h,
  λ details. create-OneCurrent env details db h fresh,
)
