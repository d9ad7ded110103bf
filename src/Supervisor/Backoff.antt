-- ===== src/Supervisor/Backoff.antt =====
-- The delays of `retryDelay` in internal/manager/supervisor.go.
use kmonad_device_manager.Prelude.{ℕ, zero, suc, ◌+◌, ◌*◌, ◌/◌, ◌≤◌, ◌<◌, ◌≡◌, refl, arith, Text}
use kmonad_device_manager.Supervisor.{
  ConfigState, second, retry_jitter, retry_base, retry_delay, schedule_retry, transition_phase,
}

-- The number of eighths in a base.
retry_base_eighths :
    (failures : ℕ)
    → (n : ℕ) × (retry_base failures ≡ 8 * n) × (2 * second ≤ 8 * n) × (8 * n ≤ 60 * second)
unfolding retry_base
retry_base_eighths zero = (60 * second / 8, refl, omega arith, omega arith)
retry_base_eighths (suc zero) = (2 * second / 8, refl, omega arith, omega arith)
retry_base_eighths (suc (suc zero)) = (4 * second / 8, refl, omega arith, omega arith)
retry_base_eighths (suc (suc (suc zero))) = (second, refl, omega arith, omega arith)
retry_base_eighths (suc (suc (suc (suc zero)))) = (2 * second, refl, omega arith, omega arith)
retry_base_eighths (suc (suc (suc (suc (suc zero))))) = (4 * second, refl, omega arith, omega arith)
retry_base_eighths (suc (suc (suc (suc (suc (suc n)))))) =
    (60 * second / 8, ground arith, omega arith, omega arith)

retry_delay_bounds :
    (int63n : ℕ → ℕ) (failures n : ℕ)
    → ((k : ℕ) → 0 < k → int63n k < k)
    → retry_base failures ≡ 8 * n
    → 0 < n
    → (7 * n ≤ retry_delay int63n failures) × (retry_delay int63n failures ≤ 9 * n)
unfolding retry_delay retry_jitter
retry_delay_bounds int63n failures n random e p =
    let jitter : retry_base failures / 4 ≡ 2 * n = omega arith in
    let half : retry_base failures / 4 / 2 ≡ n = omega arith in
    rw jitter (ground (arith, random (2 * n + 1) (omega arith)))

schedule_retry-after :
    (int63n : ℕ → ℕ) (now : ℕ) (reason : Text) (state : ConfigState)
    → (schedule_retry int63n now reason state).retry_after
      ≡ now + retry_delay int63n (state.failures + 1)
unfolding schedule_retry transition_phase
schedule_retry-after int63n now reason state = ground arith

-- With a random number below the bound that it is asked for, a failed configuration is tried again
-- after a delay within an eighth of its base, which is at least 2 and at most 60 seconds.
pub schedule_retry_bounds :
    (int63n : ℕ → ℕ) (now : ℕ) (reason : Text) (state : ConfigState)
    → ((n : ℕ) → 0 < n → int63n n < n)
    → let base = retry_base (state.failures + 1) in
      let retried = schedule_retry int63n now reason state in
      (8 * now + 7 * base ≤ 8 * retried.retry_after)
      × (8 * retried.retry_after ≤ 8 * now + 9 * base)
      × (2 * second ≤ base)
      × (base ≤ 60 * second)
schedule_retry_bounds int63n now reason state random =
    let (n, e, low, high) = retry_base_eighths (state.failures + 1) in
    let delay = retry_delay_bounds int63n (state.failures + 1) n random e (omega arith) in
    let after = schedule_retry-after int63n now reason state in
    (omega arith, omega arith, omega arith, omega arith)
