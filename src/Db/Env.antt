-- ===== src/Db/Env.antt =====
-- What a call takes from outside: the clock, the generated identifiers, the field protection (blind
-- index, encryption and decryption) of the injected encryption service, and the text functions of
-- the runtime.
use zongo_v.Prelude.{ℕ, Bool, Option, String}
use zongo_v.Db.Monad.{Thrown}

pub record Env : Type 0 where
  -- `new Date()`, `Date.now()`
  pub now : ℕ
  -- `startOfDay.setHours(0, 0, 0, 0)`, in the server's time zone
  pub start_of_day : ℕ
  -- the `cuid()` of the row that the call creates under a label
  pub new_id : String → String
  -- a number in decimal
  pub decimal : ℕ → String
  -- `Protection.blindIndex(value, purpose)`
  pub blind_index : String → String → String
  -- `Protection.decrypt(JSON.parse(ciphertext), purpose)`; `none` where it throws
  pub decrypt : String → String → Option String
  -- `JSON.stringify(await Protection.encrypt(value, purpose))`
  pub encrypt : String → String → String
  -- `TransactionReferenceService.generate()`
  pub new_reference : String
  -- `text.toUpperCase()`
  pub upper : String → String
  -- `!text.trim()`
  pub is_blank : String → Bool
  -- `error.message`
  pub message : Thrown → String
  -- `Number(process.env.STATUS_RECHECK_SWEEP_INTERVAL_MS ?? 60_000)`
  pub recheck_interval_ms : ℕ
  -- `Number(process.env.RECONCILIATION_SWEEP_INTERVAL_MS ?? 15 * 60 * 1000)`
  pub reconciliation_interval_ms : ℕ
