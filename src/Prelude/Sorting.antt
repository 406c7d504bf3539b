-- ===== src/Prelude/Sorting.antt =====
-- `orderBy: { column: 'asc' }` and `take` of a query, and what they select.
use Prim.Native.Nat.{ℕ, zero, suc, ◌≤◌}
use mathlib.Core.Path.{◌≡◌, refl}
use mathlib.Core.Logic.{◌⊎◌, inl, inr}
use mathlib.Core.List.{List, [], ◌∷◌, ◌++◌, Perm}
use mathlib.Core.List.Perm
use native.Mathlib.Omega.{arith}
use zongo_v.Prelude.Tests.{leb, if◌then◌else◌, Bool-cases, leb→le}
use zongo_v.Prelude.Lists.{length, take, drop, All, All-map}

module _ {ℓ} {A : Type ℓ} (key : A → ℕ) where
  abbrev pub insert_by : A → List A → List A
  insert_by a [] = a ∷ []
  insert_by a (x ∷ xs) = if leb (key a) (key x) then a ∷ x ∷ xs else x ∷ insert_by a xs

  -- A stable sort.
  abbrev pub sort_by : List A → List A
  sort_by [] = []
  sort_by (x ∷ xs) = insert_by x (sort_by xs)

  abbrev pub IsAbove : A → A → Type 0
  IsAbove a b = key a ≤ key b

  abbrev pub IsAscending : List A → Type 0
  IsAscending [] = Unit
  IsAscending (x ∷ xs) = All (IsAbove x) xs × IsAscending xs

  insert_by-Perm : (a : A) (xs : List A) → Perm (insert_by a xs) (a ∷ xs)
  insert_by-Perm a [] = Perm.rfl
  insert_by-Perm a (x ∷ xs) = elim (Bool-cases (leb (key a) (key x))) [
    | inl e ↦ rw e Perm.rfl
    | inr e ↦ rw e (Perm.trans (Perm.cons x (insert_by-Perm a xs)) (Perm.swap a x xs))
  ]

  pub sort_by-Perm : (xs : List A) → Perm (sort_by xs) xs
  sort_by-Perm [] = Perm.rfl
  sort_by-Perm (x ∷ xs) = Perm.trans (insert_by-Perm x (sort_by xs)) (Perm.cons x (sort_by-Perm xs))

  insert_by-All : (P : A → Type 0) (a : A) (xs : List A) → P a → All P xs → All P (insert_by a xs)
  insert_by-All P a [] p h = (p, tt)
  insert_by-All P a (x ∷ xs) p (q, qs) = elim (Bool-cases (leb (key a) (key x))) [
    | inl e ↦ rw e (p, (q, qs))
    | inr e ↦ rw e (q, insert_by-All P a xs p qs)
  ]

  insert_by-IsAscending : (a : A) (xs : List A) → IsAscending xs → IsAscending (insert_by a xs)
  insert_by-IsAscending a [] h = (tt, tt)
  insert_by-IsAscending a (x ∷ xs) (h, hs) = elim (Bool-cases (leb (key a) (key x))) [
    | inl e ↦
        let le : key a ≤ key x = leb→le (key a) (key x) e in
        rw e ((le, All-map (λ y l. omega arith) xs h), (h, hs))
    | inr e ↦ rw e (insert_by-All (IsAbove x) a xs (ground arith) h, insert_by-IsAscending a xs hs)
  ]

  sort_by-IsAscending : (xs : List A) → IsAscending (sort_by xs)
  sort_by-IsAscending [] = tt
  sort_by-IsAscending (x ∷ xs) = insert_by-IsAscending x (sort_by xs) (sort_by-IsAscending xs)

  All-drop : (P : A → Type 0) (n : ℕ) (xs : List A) → All P xs → All P (drop n xs)
  All-drop P zero xs h = h
  All-drop P (suc n) [] h = tt
  All-drop P (suc n) (x ∷ xs) (p, h) = All-drop P n xs h

  take-first :
      (n : ℕ) (xs : List A) → IsAscending xs → All (λ a. All (IsAbove a) (drop n xs)) (take n xs)
  take-first zero xs h = tt
  take-first (suc n) [] h = tt
  take-first (suc n) (x ∷ xs) (h, hs) = (All-drop (IsAbove x) n xs h, take-first n xs hs)

  take-drop : (n : ℕ) (xs : List A) → take n xs ++ drop n xs ≡ xs
  take-drop zero xs = refl
  take-drop (suc n) [] = refl
  take-drop (suc n) (x ∷ xs) = rw (take-drop n xs) refl

  take_full : (n : ℕ) (xs : List A) → (drop n xs ≡ []) ⊎ (length (take n xs) ≡ n)
  take_full zero xs = inr refl
  take_full (suc n) [] = inl refl
  take_full (suc n) (x ∷ xs) = elim (take_full n xs) [ inl e ↦ inl e | inr e ↦ inr (rw e refl) ]

  length-take : (n : ℕ) (xs : List A) → length (take n xs) ≤ n
  length-take zero xs = omega arith
  length-take (suc n) [] = omega arith
  length-take (suc n) (x ∷ xs) = omega (arith, length-take n xs)

  -- `take n` of the rows in ascending order are the first `n`: what is left out comes later, and
  -- nothing is left out while there is room.
  pub record IsFirst (n : ℕ) (all chosen : List A) : Type ℓ where
    pub rest : List A
    pub same_rows : Perm (chosen ++ rest) all
    pub bounded : length chosen ≤ n
    pub full : (rest ≡ []) ⊎ (length chosen ≡ n)
    pub earlier : All (λ a. All (IsAbove a) rest) chosen

  pub take-sort_by-IsFirst : (n : ℕ) (xs : List A) → IsFirst n xs (take n (sort_by xs))
  take-sort_by-IsFirst n xs = record {
    rest = drop n (sort_by xs);
    same_rows = rw (take-drop n (sort_by xs)) (sort_by-Perm xs);
    bounded = length-take n (sort_by xs);
    full = take_full n (sort_by xs);
    earlier = take-first n (sort_by xs) (sort_by-IsAscending xs);
  }
