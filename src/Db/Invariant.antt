-- ===== src/Db/Invariant.antt =====
-- Properties of the database that a call keeps, however it ends: one rule for each way to build a
-- call.
use zongo_v.Prelude.{Bool, true, false, Option, none, some, ◌≡◌, refl, if◌then◌else◌}
use zongo_v.Db.Rows.{Db}
use zongo_v.Db.Monad.{
  Thrown, Result, ok, err, Action, ⊤, pure, throw, gets, reads, or_throw, commit, transaction,
  recover, try_catch, modify, throw_if, when, continue, ◌>>=◌,
}

-- `m` keeps `P`, whether it returns or throws.
pub record Keeps {A : Type 0} (P : Db → Type 0) (m : Action A) : Type 0 where
  pub at : (db : Db) → P db → P (m db).1

commit-keeps :
    (P : Db → Type 0) {A : Type 0} (db : Db) (r : Result A × Db) → P db → P r.1 → P (commit db r).1
commit-keeps P db (ok a, db') h k = k
commit-keeps P db (err e, db') h k = h

module _ {P : Db → Type 0} {A : Type 0} where
  pub Keeps-pure : (a : A) → Keeps P (pure a)
  unfolding ◌>>=◌
  Keeps-pure a = record { at = λ db h. h }

  pub Keeps-throw : (e : Thrown) → Keeps P (throw {A = A} e)
  unfolding ◌>>=◌
  Keeps-throw e = record { at = λ db h. h }

  pub Keeps-gets : (f : Db → A) → Keeps P (gets f)
  unfolding ◌>>=◌
  Keeps-gets f = record { at = λ db h. h }

  pub Keeps-reads : (f : Db → Result A) → Keeps P (reads f)
  unfolding ◌>>=◌
  Keeps-reads f = record { at = λ db h. h }

  pub Keeps-or_throw : (o : Option A) (e : Thrown) → Keeps P (or_throw o e)
  unfolding ◌>>=◌
  Keeps-or_throw none e = record { at = λ db h. h }
  Keeps-or_throw (some a) e = record { at = λ db h. h }

  pub Keeps-transaction : (m : Action A) → Keeps P m → Keeps P (transaction m)
  unfolding ◌>>=◌
  Keeps-transaction m k = record { at = λ db h. commit-keeps P db (m db) h (k.at db h) }

  recover-keeps :
      (handler : Thrown → Action A) (r : Result A × Db)
      → P r.1
      → ((e : Thrown) → Keeps P (handler e))
      → P (recover handler r).1
  recover-keeps handler (ok a, db) h k = h
  recover-keeps handler (err e, db) h k = (k e).at db h

  pub Keeps-try_catch :
      (m : Action A) (handler : Thrown → Action A)
      → Keeps P m
      → ((e : Thrown) → Keeps P (handler e))
      → Keeps P (try_catch m handler)
  unfolding ◌>>=◌
  Keeps-try_catch m handler km kh = record {
    at = λ db h. recover-keeps handler (m db) (km.at db h) kh;
  }

  pub Keeps-if : (b : Bool) (m n : Action A) → Keeps P m → Keeps P n → Keeps P (if b then m else n)
  Keeps-if true m n km kn = km
  Keeps-if false m n km kn = kn

module _ {P : Db → Type 0} where
  pub Keeps-throw_if : (b : Bool) (e : Thrown) → Keeps P (throw_if b e)
  unfolding ◌>>=◌
  Keeps-throw_if true e = record { at = λ db h. h }
  Keeps-throw_if false e = record { at = λ db h. h }

  pub Keeps-when : (b : Bool) (m : Action ⊤) → Keeps P m → Keeps P (when b m)
  unfolding ◌>>=◌
  Keeps-when true m k = record { at = k.at }
  Keeps-when false m k = record { at = λ db h. h }

  pub Keeps-modify : (f : Db → Db) → ((db : Db) → P db → P (f db)) → Keeps P (modify f)
  unfolding ◌>>=◌
  Keeps-modify f k = record { at = k }

module _ {P : Db → Type 0} {A B : Type 0} where
  continue-keeps :
      (f : A → Action B) (r : Result A × Db)
      → P r.1
      → ((a : A) → Keeps P (f a))
      → P (continue f r).1
  continue-keeps f (ok a, db) h k = (k a).at db h
  continue-keeps f (err e, db) h k = h

  pub Keeps-bind :
      (m : Action A) (f : A → Action B) → Keeps P m → ((a : A) → Keeps P (f a)) → Keeps P (m >>= f)
  unfolding ◌>>=◌
  Keeps-bind m f km kf = record { at = λ db h. continue-keeps f (m db) (km.at db h) kf }

-- What a call reaches, by its first part.
module _ (P : Db → Type 0) where
  -- A transaction leaves what its body reaches, or what was there.
  pub transaction-reaches :
      {A : Type 0} (m : Action A) (db : Db) → P db → P (m db).1 → P (transaction m db).1
  unfolding ◌>>=◌
  transaction-reaches m db h k = commit-keeps P db (m db) h k

  pub gets-reaches :
      {A B : Type 0} (f : Db → A) (k : A → Action B) (db : Db)
      → P (k (f db) db).1
      → P ((gets f >>= k) db).1
  unfolding ◌>>=◌
  gets-reaches f k db h = h

  pub modify-reaches :
      {B : Type 0} (f : Db → Db) (k : ⊤ → Action B) (db : Db)
      → P (f db)
      → ((u : ⊤) → Keeps P (k u))
      → P ((modify f >>= k) db).1
  unfolding ◌>>=◌
  modify-reaches f k db h kk = (kk tt).at (f db) h

  -- A call that is refused leaves what was there.
  pub throw_if-reaches :
      {B : Type 0} (b : Bool) (e : Thrown) (k : ⊤ → Action B) (db : Db)
      → P db
      → (b ≡ false → P (k tt db).1)
      → P ((throw_if b e >>= k) db).1
  unfolding ◌>>=◌
  throw_if-reaches true e k db h kk = h
  throw_if-reaches false e k db h kk = kk refl

  pub if-reaches :
      {A : Type 0} (b : Bool) (m n : Action A) (db : Db)
      → (b ≡ true → P (m db).1)
      → (b ≡ false → P (n db).1)
      → P ((if b then m else n) db).1
  if-reaches true m n db h k = h refl
  if-reaches false m n db h k = k refl

  or_throw-reaches :
      {A B : Type 0} (o : Option A) (e : Thrown) (f : A → Action B) (db : Db)
      → P db
      → ((a : A) → P (f a db).1)
      → P ((or_throw o e >>= f) db).1
  unfolding ◌>>=◌
  or_throw-reaches none e f db h k = h
  or_throw-reaches (some a) e f db h k = k a

  -- A row that must be there is read first.
  pub lookup-reaches :
      {A B : Type 0} (lookup : Db → Option A) (e : Thrown) (f : A → Action B) (db : Db)
      → P db
      → ((a : A) → P (f a db).1)
      → P ((gets lookup >>= (λ found. or_throw found e) >>= f) db).1
  unfolding ◌>>=◌
  lookup-reaches lookup e f db h k = or_throw-reaches (lookup db) e f db h k

  -- What the first part reaches, the rest keeps.
  pub bind-reaches :
      {A B : Type 0} (m : Action A) (f : A → Action B) (db : Db)
      → P (m db).1
      → ((a : A) → Keeps P (f a))
      → P ((m >>= f) db).1
  unfolding ◌>>=◌
  bind-reaches m f db h kf = continue-keeps f (m db) h kf

pub ruleset keeps_rules = (
  Keeps-pure, Keeps-throw, Keeps-gets, Keeps-reads, Keeps-or_throw, Keeps-transaction,
  Keeps-try_catch, Keeps-if, Keeps-throw_if, Keeps-when, Keeps-modify, Keeps-bind,
)

-- A transaction that throws leaves the database as it found it.
pub transaction-rolls_back :
    {A : Type 0} (m : Action A) (db : Db) {e : Thrown}
    → (transaction m db).0 ≡ err e
    → (transaction m db).1 ≡ db
unfolding ◌>>=◌
transaction-rolls_back {A} m db {e} h = go (m db) h
  where
    go : (r : Result A × Db) → (commit db r).0 ≡ err e → (commit db r).1 ≡ db
    go (ok a, db') h = cc
    go (err e, db') h = refl
