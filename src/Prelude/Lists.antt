-- ===== src/Prelude/Lists.antt =====
-- Lists measured by native numbers, and the scans and updates of a table held as a list of rows.
use Prim.Native.Nat.{ℕ, zero, suc, ◌+◌, ◌<◌}
use mathlib.Core.Path.{◌≡◌, refl}
use mathlib.Core.Logic.{◌⊎◌, inl, inr}
use mathlib.Core.Bool.{Bool, true, false}
use mathlib.Core.Option.{Option, none, some}
use mathlib.Core.List.{List, [], ◌∷◌, ◌++◌}
use native.Mathlib.Omega.{arith}
use zongo_v.Prelude.Tests.{if◌then◌else◌}

module _ {ℓ} {A : Type ℓ} where
  abbrev pub length : List A → ℕ
  length [] = 0
  length (x ∷ xs) = suc (length xs)

  pub List-cases : (l : List A) → (l ≡ []) ⊎ (0 < length l)
  List-cases [] = inl refl
  List-cases (x ∷ xs) = inr (omega arith)

  -- The first row that passes the test.
  abbrev pub find_where : (A → Bool) → List A → Option A
  find_where p [] = none
  find_where p (x ∷ xs) = if p x then some x else find_where p xs

  -- `rows.filter(p)`
  abbrev pub select_where : (A → Bool) → List A → List A
  select_where p [] = []
  select_where p (x ∷ xs) = if p x then x ∷ select_where p xs else select_where p xs

  -- `rows.some(p)`
  abbrev pub any_where : (A → Bool) → List A → Bool
  any_where p [] = false
  any_where p (x ∷ xs) = if p x then true else any_where p xs

  abbrev pub update_where : (A → Bool) → (A → A) → List A → List A
  update_where p f [] = []
  update_where p f (x ∷ xs) = (if p x then f x else x) ∷ update_where p f xs

  abbrev pub count_where : (A → Bool) → List A → ℕ
  count_where p [] = 0
  count_where p (x ∷ xs) = (if p x then 1 else 0) + count_where p xs

  -- `rows.slice(0, n)`
  abbrev pub take : ℕ → List A → List A
  take zero xs = []
  take (suc n) [] = []
  take (suc n) (x ∷ xs) = x ∷ take n xs

  abbrev pub drop : ℕ → List A → List A
  drop zero xs = xs
  drop (suc n) [] = []
  drop (suc n) (x ∷ xs) = drop n xs

  -- Every row has the property.
  abbrev pub All {κ} : (A → Type κ) → List A → Type κ
  All P [] = Unit
  All P (x ∷ xs) = P x × All P xs

  -- What is found passes the test.
  pub find_where_holds :
      (p : A → Bool) (xs : List A) {a : A} → find_where p xs ≡ some a → p a ≡ true
  find_where_holds p [] e = cc
  find_where_holds p (x ∷ xs) {a} e = ground (arith, find_where_holds p xs {a = a})

  -- An update that keeps the test leaves the found row updated in place.
  pub find_where-update_where :
      (p : A → Bool) (f : A → A) (xs : List A) {a : A}
      → ((x : A) → p (f x) ≡ p x)
      → find_where p xs ≡ some a
      → find_where p (update_where p f xs) ≡ some (f a)
  find_where-update_where p f [] h e = cc
  find_where-update_where p f (x ∷ xs) {a} h e =
      ground (arith, h x, find_where-update_where p f xs {a = a} h)

  -- Rows that an update does not select are found as before.
  pub find_where-update_where_other :
      (q p : A → Bool) (f : A → A) (xs : List A)
      → ((x : A) → p x ≡ true → q x ≡ false)
      → ((x : A) → p x ≡ true → q (f x) ≡ false)
      → find_where q (update_where p f xs) ≡ find_where q xs
  find_where-update_where_other q p f [] h k = refl
  find_where-update_where_other q p f (x ∷ xs) h k =
      ground (arith, h x, k x, find_where-update_where_other q p f xs h k)

  pub count_where-append :
      (p : A → Bool) (xs ys : List A)
      → count_where p (xs ++ ys) ≡ count_where p xs + count_where p ys
  count_where-append p [] ys = omega arith
  count_where-append p (x ∷ xs) ys = omega (arith, count_where-append p xs ys)

  pub find_where-append_some :
      (p : A → Bool) (xs ys : List A) {a : A}
      → find_where p xs ≡ some a
      → find_where p (xs ++ ys) ≡ some a
  find_where-append_some p [] ys e = cc
  find_where-append_some p (x ∷ xs) ys {a} e =
      ground (arith, find_where-append_some p xs ys {a = a})

  pub find_where-append_none :
      (p : A → Bool) (xs ys : List A)
      → find_where p xs ≡ none
      → find_where p (xs ++ ys) ≡ find_where p ys
  find_where-append_none p [] ys e = refl
  find_where-append_none p (x ∷ xs) ys e = ground (arith, find_where-append_none p xs ys)

  pub find_where-append_other :
      (p : A → Bool) (xs : List A) (a : A)
      → p a ≡ false
      → find_where p (xs ++ a ∷ []) ≡ find_where p xs
  find_where-append_other p [] a h = ground arith
  find_where-append_other p (x ∷ xs) a h = ground (arith, find_where-append_other p xs a h)

  -- A filter that keeps what the test wants does not change what is found.
  pub find_where-select_where :
      (p q : A → Bool) (xs : List A)
      → ((x : A) → p x ≡ true → q x ≡ true)
      → find_where p (select_where q xs) ≡ find_where p xs
  find_where-select_where p q [] h = refl
  find_where-select_where p q (x ∷ xs) h = ground (arith, h x, find_where-select_where p q xs h)

  -- The row that one test finds, where another test selects it for an update.
  pub find_where-update_selected :
      (q p : A → Bool) (f : A → A) (xs : List A) {a : A}
      → ((x : A) → q (f x) ≡ q x)
      → find_where q xs ≡ some a
      → p a ≡ true
      → find_where q (update_where p f xs) ≡ some (f a)
  find_where-update_selected q p f [] h e k = cc
  find_where-update_selected q p f (x ∷ xs) {a} h e k =
      ground (arith, h x, find_where-update_selected q p f xs {a = a} h)

  -- A row that an update does not select stays as it is found.
  pub find_where-update_unselected :
      (q p : A → Bool) (f : A → A) (xs : List A) {a : A}
      → ((x : A) → q (f x) ≡ q x)
      → find_where q xs ≡ some a
      → p a ≡ false
      → find_where q (update_where p f xs) ≡ some a
  find_where-update_unselected q p f [] h e k = cc
  find_where-update_unselected q p f (x ∷ xs) {a} h e k =
      ground (arith, h x, find_where-update_unselected q p f xs {a = a} h)

  pub All-map {κ κ'} :
      {P : A → Type κ} {Q : A → Type κ'} (f : (x : A) → P x → Q x) (xs : List A)
      → All P xs
      → All Q xs
  All-map f [] h = tt
  All-map f (x ∷ xs) (p, ps) = (f x p, All-map f xs ps)

  pub All-append {κ} : (P : A → Type κ) (xs ys : List A) → All P xs → All P ys → All P (xs ++ ys)
  All-append P [] ys h k = k
  All-append P (x ∷ xs) ys (p, ps) k = (p, All-append P xs ys ps k)

  pub select_where_same :
      (p q : A → Bool) (xs : List A) → ((x : A) → p x ≡ q x) → select_where p xs ≡ select_where q xs
  select_where_same p q [] h = refl
  select_where_same p q (x ∷ xs) h = rw (h x, select_where_same p q xs h) refl

  pub All-select_where : (p : A → Bool) (xs : List A) → All (λ x. p x ≡ true) (select_where p xs)
  All-select_where p [] = tt
  All-select_where p (x ∷ xs) = ground (arith, All-select_where p xs)

  pub any_where-append_left :
      (p : A → Bool) (xs ys : List A) → any_where p xs ≡ true → any_where p (xs ++ ys) ≡ true
  any_where-append_left p [] ys h = cc
  any_where-append_left p (x ∷ xs) ys h = ground (arith, any_where-append_left p xs ys)

  pub any_where-append_last :
      (p : A → Bool) (xs : List A) (a : A) → p a ≡ true → any_where p (xs ++ a ∷ []) ≡ true
  any_where-append_last p [] a h = ground arith
  any_where-append_last p (x ∷ xs) a h = ground (arith, any_where-append_last p xs a h)
