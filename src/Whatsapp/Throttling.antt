-- ===== src/Whatsapp/Throttling.antt =====
-- What the ingress throttle of zongo/libs/whatsapp/src/whatsapp-ingress-throttle.service.ts lets
-- through.
use text.Mathlib.TextEquality.{eq_iff}
use text.Mathlib.TextPositions.{eq_refl}
use Prim.Native.Nat.{min}
use zongo_v.Prelude.{
  ℕ, suc, ◌+◌, ◌-◌, ◌*◌, ◌≤◌, ◌<◌, ◌≡◌, ◌≢◌, refl, ◌∙◌, ◌⊎◌, inl, inr, true, false, Option, none,
  some, List, [], ◌∷◌, ◌++◌, String, arith, length, find_where, update_where, str_eq, All,
  if◌then◌else◌, find_where-update_where, find_where-update_where_other, find_where-append_other,
  find_where-append_none, Option-cases,
}
use zongo_v.Db.Rows.{RateLimitBucket}
use zongo_v.Whatsapp.Throttle.{window_ms, has_hash, passed, denied, opened, counted, consume_bucket}

-- The requests of one key, at the given times, one after another: how many pass.
unfoldable pub passes : ℕ → String → List ℕ → List RateLimitBucket → ℕ
passes limit key [] rows = 0
passes limit key (now ∷ later) rows =
    let (r, rows') = consume_bucket limit key now rows in
    (if r.allowed then 1 else 0) + passes limit key later rows'

-- There is no row, or its window has ended.
abbrev pub IsExpired : ℕ → Option RateLimitBucket → Type 0
IsExpired now none = Unit
IsExpired now (some b) = b.expires_at ≤ now

module _ (limit : ℕ) (key : String) (now : ℕ) (rows : List RateLimitBucket) where
  find_opened :
      find_where (has_hash key) rows ≡ none
      → find_where (has_hash key) (rows ++ opened key now ∷ []) ≡ some (opened key now)
  find_opened e =
      find_where-append_none (has_hash key) rows (opened key now ∷ []) e ∙ rw (eq_refl key)

  find_reopened :
      (b : RateLimitBucket) (ys : List RateLimitBucket)
      → find_where (has_hash key) ys ≡ some b
      → find_where (has_hash key) (update_where (has_hash key) (λ _. opened key now) ys)
        ≡ some (opened key now)
  find_reopened b [] e = cc
  find_reopened b (x ∷ ys) e = ground (arith, eq_refl key, find_reopened b ys)

  -- With no row, or an expired one, the request passes and opens a window.
  consume_bucket-opens :
      IsExpired now (find_where (has_hash key) rows)
      → let (r, rows') = consume_bucket limit key now rows in
        (r ≡ passed) × (find_where (has_hash key) rows' ≡ some (opened key now))
  unfolding consume_bucket
  consume_bucket-opens stale = elim (Option-cases (find_where (has_hash key) rows)) [
    | inl e ↦ rw e (refl, find_opened e)
    | inr (b, e) ↦
        let h : b.expires_at ≤ now = rw e at stale in
        let again = find_reopened b rows e in rw e (ground (arith, again))
  ]

  -- After a request in an open window: the row and the answer.
  consume_bucket-open_window :
      (b : RateLimitBucket)
      → find_where (has_hash key) rows ≡ some b
      → now < b.expires_at
      → let (r, rows') = consume_bucket limit key now rows in
        ((limit ≤ b.request_count) × (r ≡ denied now b) × (rows' ≡ rows))
        ⊎ ((b.request_count < limit)
            × (r ≡ passed)
            × (find_where (has_hash key) rows' ≡ some (counted b)))
  unfolding consume_bucket
  consume_bucket-open_window b e h =
      let after = find_where-update_where (has_hash key) counted rows (λ x. refl) e in
      rw e (ground (arith, after))

-- How many of the requests pass while one window stays open.
passes_in_window :
    (limit : ℕ) (key : String) (times : List ℕ) (rows : List RateLimitBucket) (b : RateLimitBucket)
    → find_where (has_hash key) rows ≡ some b
    → All (λ t. t < b.expires_at) times
    → passes limit key times rows ≡ min (length times) (limit - b.request_count)
unfolding passes
passes_in_window limit key [] rows b e h = omega arith
passes_in_window limit key (now ∷ later) rows b e (h, hs) =
    elim (consume_bucket-open_window limit key now rows b e h) [
      | inl (full, r, same) ↦
          rw (r, same, passes_in_window limit key later rows b e hs) (omega arith)
      | inr (room, r, e') ↦
          rw
            (
              r,
              passes_in_window limit key later (consume_bucket limit key now rows).1 (counted b) e'
                  hs,
            )
            (omega arith)
    ]

-- Within one window exactly the first `limit` requests of a key pass: if its row is missing or has
-- expired when the first request comes, and the later ones, in any order of their times, come before
-- the new window ends.
pub window_admits_limit :
    (limit now : ℕ) (key : String) (later : List ℕ) (rows : List RateLimitBucket)
    → 0 < limit
    → IsExpired now (find_where (has_hash key) rows)
    → All (λ t. t < now + window_ms) later
    → passes limit key (now ∷ later) rows ≡ min (suc (length later)) limit
unfolding passes
window_admits_limit limit now key later rows positive stale within =
    let (r, e) = consume_bucket-opens limit key now rows stale in
    rw
      (
        r,
        passes_in_window limit key later (consume_bucket limit key now rows).1 (opened key now) e
            within,
      )
      (omega arith)

-- A request that is turned away changes nothing, is told to wait between one second and one minute,
-- and passes after that wait if the row of the key is still as it was.
pub denied_then_passes :
    (limit now : ℕ) (key : String) (rows : List RateLimitBucket) (b : RateLimitBucket)
    → find_where (has_hash key) rows ≡ some b
    → now < b.expires_at
    → b.expires_at ≤ now + window_ms
    → limit ≤ b.request_count
    → let (r, rows') = consume_bucket limit key now rows in
      (r.allowed ≡ false)
      × (rows' ≡ rows)
      × (1 ≤ r.retry_after_seconds)
      × (r.retry_after_seconds ≤ 60)
      × ((consume_bucket limit key (now + r.retry_after_seconds * 1000) rows').0 ≡ passed)
unfolding consume_bucket
denied_then_passes limit now key rows b e h k full =
    let answer : consume_bucket limit key now rows ≡ (denied now b, rows) = rw e (ground arith) in
    rw answer (refl, refl, ground arith, ground arith, rw e (ground arith))

-- A request of one key leaves the row of every other key as it was.
pub consume_bucket-other_key :
    (limit now : ℕ) (key other : String) (rows : List RateLimitBucket)
    → key ≢ other
    → find_where (has_hash other) (consume_bucket limit key now rows).1
      ≡ find_where (has_hash other) rows
unfolding consume_bucket
consume_bucket-other_key limit now key other rows ne =
    elim (Option-cases (find_where (has_hash key) rows)) [
      | inl e ↦ rw e (find_where-append_other (has_hash other) rows (opened key now) differ)
      | inr (b, e) ↦
          let reopened =
            find_where-update_where_other (has_hash other) (has_hash key) (λ _. opened key now) rows
              apart (λ x h. differ) in
          let counted_on =
            find_where-update_where_other (has_hash other) (has_hash key) counted rows apart
              apart in
          rw e (ground (arith, reopened, counted_on))
    ]
  where
    differ : str_eq key other ≡ false
    differ = ground (arith, eq_iff key other)

    apart : (x : RateLimitBucket) → has_hash key x ≡ true → has_hash other x ≡ false
    apart x h = rw ((eq_iff x.key_hash key).0 h) differ
