-- ===== src/Db/Checks.antt =====
-- Chains of checks that only read: a result, or what is thrown.
use zongo_v.Prelude.{Bool, true, false, Option, none, some}
use zongo_v.Db.Monad.{Thrown, Result, ok, err, ⊤}

infixl 5 ◌>>=◌ ◌>>◌
abbrev pub ◌>>=◌ : {A B : Type 0} → Result A → (A → Result B) → Result B
ok a >>= f = f a
err e >>= f = err e

abbrev pub ◌>>◌ : {B : Type 0} → Result ⊤ → Result B → Result B
m >> k = m >>= λ _. k

abbrev pub reject_if : Bool → Thrown → Result ⊤
reject_if true e = err e
reject_if false e = ok tt

abbrev pub some_or : {A : Type 0} → Option A → Thrown → Result A
some_or none e = err e
some_or (some a) e = ok a
