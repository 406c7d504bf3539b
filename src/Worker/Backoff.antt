-- ===== src/Worker/Backoff.antt =====
-- The delay before a notification is sent again, in `processNotification` of
-- zongo/apps/worker/src/worker-job.processor.ts.
use zongo_v.Prelude.{ℕ, zero, suc, ◌*◌, ◌≤◌, ◌≡◌, arith}
use zongo_v.Worker.Notify.{min, power_of_two, delay_ms}

power_of_two-positive : (n : ℕ) → 1 ≤ power_of_two n
power_of_two-positive zero = omega arith
power_of_two-positive (suc n) = omega (arith, power_of_two-positive n)

power_of_two_mono : (n k : ℕ) → n ≤ k → power_of_two n ≤ power_of_two k
power_of_two_mono zero k h = power_of_two-positive k
power_of_two_mono (suc n) zero h = absurd (omega arith)
power_of_two_mono (suc n) (suc k) h = omega (arith, power_of_two_mono n k (omega arith))

min-le : (a b : ℕ) → min a b ≤ b
min-le a b = ground arith

min_mono : (a b c : ℕ) → a ≤ b → min a c ≤ min b c
min_mono a b c h = ground arith

capped : (n : ℕ) → 2 ≤ n → n ≤ 1024 → min 3600000 (1000 * n) ≡ 1000 * n
capped n h k = ground arith

two-le : (a : ℕ) → 1 ≤ a → 2 ≤ power_of_two (min a 10)
two-le a h = power_of_two_mono 1 (min a 10) (ground arith)

exponent-le : (a : ℕ) → power_of_two (min a 10) ≤ 1024
exponent-le a = power_of_two_mono (min a 10) 10 (min-le a 10)

delay_ms-value : (a : ℕ) → 1 ≤ a → delay_ms a ≡ 1000 * power_of_two (min a 10)
unfolding delay_ms
delay_ms-value a h = capped (power_of_two (min a 10)) (two-le a h) (exponent-le a)

-- A notification that fails waits longer each time, and never longer than 1,024 seconds: more
-- attempts never make the delay shorter, from the first failed attempt on it is two seconds or
-- more, and the bound of one hour in the code is never reached.
pub delay_ms-bounds :
    (a b : ℕ)
    → 1 ≤ a
    → a ≤ b
    → (2000 ≤ delay_ms a) × (delay_ms a ≤ delay_ms b) × (delay_ms b ≤ 1024000)
delay_ms-bounds a b h k =
    let va = delay_ms-value a h in
    let vb = delay_ms-value b (omega arith) in
    (
      omega (arith, two-le a h, va),
      omega (arith, power_of_two_mono (min a 10) (min b 10) (min_mono a b 10 k), va, vb),
      omega (arith, exponent-le b, vb),
    )
