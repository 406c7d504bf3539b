-- ===== src/Db/Inversion.antt =====
-- What a successful call says of its parts.
use zongo_v.Prelude.{Bool, true, false, Option, none, some, ◌≡◌, ◌⊎◌, inl, inr, refl, arith}
use zongo_v.Db.Rows.{Db}
use zongo_v.Db.Monad.{
  or_throw, Thrown, Result, ok, err, Action, gets, reads, commit, transaction, throw_if, continue,
  ◌>>=◌, ◌>>◌,
}
use zongo_v.Db.Checks.{reject_if, some_or}
use zongo_v.Db.Checks

module _ {A B : Type 0} where
  reads-go :
      (r : Result A) (k : A → Action B) (db : Db) {b : B} {db' : Db}
      → continue k (r, db) ≡ (ok b, db')
      → (a : A) × (r ≡ ok a) × (k a db ≡ (ok b, db'))
  reads-go (ok a) k db h = (a, refl, h)
  reads-go (err e) k db h = absurd (ground arith)

  pub reads-ok :
      (f : Db → Result A) (k : A → Action B) (db : Db) {b : B} {db' : Db}
      → (reads f >>= k) db ≡ (ok b, db')
      → (a : A) × (f db ≡ ok a) × (k a db ≡ (ok b, db'))
  unfolding ◌>>=◌
  reads-ok f k db h = reads-go (f db) k db h

  pub gets-ok :
      (f : Db → A) (k : A → Action B) (db : Db) {r : Result B × Db}
      → (gets f >>= k) db ≡ r
      → k (f db) db ≡ r
  unfolding ◌>>=◌
  gets-ok f k db h = h

  -- A successful check chain.
  pub check-ok :
      (r : Result A) (k : A → Result B) {b : B}
      → Checks.◌>>=◌ r k ≡ ok b
      → (a : A) × (r ≡ ok a) × (k a ≡ ok b)
  check-ok (ok a) k h = (a, refl, h)
  check-ok (err e) k h = absurd (ground arith)

module _ {B : Type 0} where
  pub throw_if-ok :
      (c : Bool) (e : Thrown) (k : Action B) (db : Db) {b : B} {db' : Db}
      → (throw_if c e >> k) db ≡ (ok b, db')
      → (c ≡ false) × (k db ≡ (ok b, db'))
  unfolding ◌>>=◌
  throw_if-ok true e k db h = absurd (ground arith)
  throw_if-ok false e k db h = (refl, h)

  pub reject_if-ok :
      (c : Bool) (e : Thrown) (k : Result B) {b : B}
      → Checks.◌>>◌ (reject_if c e) k ≡ ok b
      → (c ≡ false) × (k ≡ ok b)
  reject_if-ok true e k h = absurd (ground arith)
  reject_if-ok false e k h = (refl, h)

module _ {A : Type 0} where
  transaction-go :
      (db : Db) (r : Result A × Db) {a : A} {db' : Db} → commit db r ≡ (ok a, db') → r ≡ (ok a, db')
  transaction-go db (ok a, db') h = h
  transaction-go db (err e, db') h = absurd (ground arith)

  pub transaction-ok :
      (m : Action A) (db : Db) {a : A} {db' : Db}
      → transaction m db ≡ (ok a, db')
      → m db ≡ (ok a, db')
  unfolding ◌>>=◌
  transaction-ok m db h = transaction-go db (m db) h

  pub some_or-ok : (o : Option A) (e : Thrown) {a : A} → some_or o e ≡ ok a → o ≡ some a
  some_or-ok none e h = absurd (ground arith)
  some_or-ok (some a) e h = ground arith

module _ {A B : Type 0} where
  bind-go :
      (f : A → Action B) (r : Result A × Db) {b : B} {db' : Db}
      → continue f r ≡ (ok b, db')
      → (a : A) × (db1 : Db) × (r ≡ (ok a, db1)) × (f a db1 ≡ (ok b, db'))
  bind-go f (ok a, db1) h = (a, db1, refl, h)
  bind-go f (err e, db1) h = absurd (ground arith)

  pub bind-ok :
      (m : Action A) (f : A → Action B) (db : Db) {b : B} {db' : Db}
      → (m >>= f) db ≡ (ok b, db')
      → (a : A) × (db1 : Db) × (m db ≡ (ok a, db1)) × (f a db1 ≡ (ok b, db'))
  unfolding ◌>>=◌
  bind-ok m f db h = bind-go f (m db) h

  lookup-go :
      (o : Option A) (e : Thrown) (f : A → Action B) (db : Db) {b : B} {db' : Db}
      → (or_throw o e >>= f) db ≡ (ok b, db')
      → (a : A) × (o ≡ some a) × (f a db ≡ (ok b, db'))
  unfolding ◌>>=◌
  lookup-go none e f db h = absurd (ground arith)
  lookup-go (some a) e f db h = (a, refl, h)

  -- A row that must be there was found.
  pub lookup-ok :
      (lookup : Db → Option A) (e : Thrown) (f : A → Action B) (db : Db) {b : B} {db' : Db}
      → (gets lookup >>= (λ found. or_throw found e) >>= f) db ≡ (ok b, db')
      → (a : A) × (lookup db ≡ some a) × (f a db ≡ (ok b, db'))
  unfolding ◌>>=◌
  lookup-ok lookup e f db h = lookup-go (lookup db) e f db h

module _ {B : Type 0} where
  commit-cases :
      (db : Db) (r : Result B × Db)
      → ((commit db r).1 ≡ db) ⊎ ((b : B) × (commit db r ≡ (ok b, (commit db r).1)))
  commit-cases db (ok b, db') = inr (b, refl)
  commit-cases db (err e, db') = inl refl

  -- A guarded transaction leaves the database as it was, or returns.
  pub guarded-cases :
      (c : Bool) (e : Thrown) (m : Action B) (db : Db)
      → let r = (throw_if c e >> transaction m) db in (r.1 ≡ db) ⊎ ((b : B) × (r ≡ (ok b, r.1)))
  unfolding ◌>>=◌
  guarded-cases true e m db = inl refl
  guarded-cases false e m db = elim (commit-cases db (m db)) [
    | inl h ↦ inl h
    | inr (b, h) ↦ inr (b, h)
  ]
