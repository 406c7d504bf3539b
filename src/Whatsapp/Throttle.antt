-- ===== src/Whatsapp/Throttle.antt =====
-- zongo/libs/whatsapp/src/whatsapp-ingress-throttle.service.ts: a fixed window of requests for each
-- chat and phone, kept in one row under a keyed hash.
use Prim.Native.Nat.{max}
use zongo_v.Prelude.{
  ℕ, zero, suc, ◌+◌, ◌-◌, ◌/◌, Bool, true, false, Option, none, some, List, [], ◌∷◌, ◌++◌, String,
  find_where, update_where, leb, str_eq, get_or, template, if◌then◌else◌,
}
use zongo_v.Prelude.Int.{ℤ, pos, negsuc}
use zongo_v.Db.Rows.{RateLimitBucket}
use zongo_v.Db.Monad.{
  Thrown, plain, too_many_requests, Result, ok, err, Action, ⊤, pure, throw, gets, reads, modify,
  ◌>>=◌, ◌>>◌,
}

pub record ThrottleResult : Type 0 where
  pub allowed : Bool
  pub retry_after_seconds : ℕ

-- What `Number(text)` gives.
pub data JsNumber : Type 0 where
  integer : ℤ → JsNumber
  other : JsNumber

-- The environment of the process, and the keyed hash `createHmac('sha256', secret)`.
pub record ThrottleConfig : Type 0 where
  pub rate_limit_key : Option String
  pub app_secret : Option String
  pub limit_setting : Option JsNumber
  pub keyed_hash : String → String → String

abbrev pub window_ms : ℕ
window_ms = 60000

abbrev bad_limit : Thrown
bad_limit = plain "WHATSAPP_INGRESS_RATE_LIMIT_PER_MINUTE must be a positive integer"

-- `limit()`
unfoldable pub limit_of : Option JsNumber → Result ℕ
limit_of none = ok 30
limit_of (some (integer (pos zero))) = err bad_limit
limit_of (some (integer (pos (suc n)))) = ok (suc n)
limit_of (some (integer (negsuc n))) = err bad_limit
limit_of (some other) = err bad_limit

-- `process.env.WHATSAPP_RATE_LIMIT_KEY ?? process.env.META_APP_SECRET`, unless missing or empty
abbrev pub secret_of : ThrottleConfig → Result String
secret_of c =
    let secret = get_or c.rate_limit_key (get_or c.app_secret "") in
    if str_eq secret ""
    then err (plain "WhatsApp ingress throttling key is not configured")
    else ok secret

abbrev pub has_hash : String → RateLimitBucket → Bool
has_hash key b = str_eq b.key_hash key

abbrev pub passed : ThrottleResult
passed = record { allowed = true; retry_after_seconds = 0 }

-- `Math.max(1, Math.ceil((bucket.expiresAt - now) / 1000))`, for a bucket that has not expired.
abbrev pub denied : ℕ → RateLimitBucket → ThrottleResult
denied now b = record {
  allowed = false;
  retry_after_seconds = max 1 ((b.expires_at - now + 999) / 1000);
}

abbrev pub opened : String → ℕ → RateLimitBucket
opened key now = record {
  key_hash = key;
  window_started_at = now;
  expires_at = now + window_ms;
  request_count = 1;
}

abbrev pub counted : RateLimitBucket → RateLimitBucket
counted b = record b { request_count = b.request_count + 1 }

-- The body of the transaction on the rows of the table, by the row that is found.
unfoldable pub consume_found :
    ℕ
    → String
    → ℕ
    → List RateLimitBucket
    → Option RateLimitBucket
    → ThrottleResult × List RateLimitBucket
consume_found limit key now rows none = (passed, rows ++ opened key now ∷ [])
consume_found limit key now rows (some b) =
    if leb b.expires_at now
    then (passed, update_where (has_hash key) (λ _. opened key now) rows)
    else if leb limit b.request_count
    then (denied now b, rows)
    else (passed, update_where (has_hash key) counted rows)

unfoldable pub consume_bucket :
    ℕ → String → ℕ → List RateLimitBucket → ThrottleResult × List RateLimitBucket
unfolding consume_found
consume_bucket limit key now rows =
    consume_found limit key now rows (find_where (has_hash key) rows)

unfoldable pub consume : ThrottleConfig → ℕ → String → String → Action ThrottleResult
unfolding consume_bucket limit_of
consume c now chat_id sender_phone_number = do
  secret ← reads (λ _. secret_of c)
  limit ← reads (λ _. limit_of c.limit_setting)
  let key = c.keyed_hash secret (template (chat_id ∷ ":" ∷ sender_phone_number ∷ []))
  result ← gets (λ db. consume_bucket limit key now db.buckets)
  modify (λ db. record db { buckets = result.1 })
  pure result.0

unfoldable pub assert_allowed : ThrottleResult → Action ⊤
assert_allowed r = if r.allowed then pure tt else throw (too_many_requests r.retry_after_seconds)
