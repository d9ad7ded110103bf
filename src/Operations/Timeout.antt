-- ===== src/Operations/Timeout.antt =====
-- The time limits that `startIdentification` and `startProbe` of internal/manager/identify.go and
-- internal/manager/inputscan.go accept.
use kmonad_device_manager.Prelude.{
  ℕ, ◌+◌, ◌-◌, ◌*◌, ◌≡◌, ◌≤◌, ◌<◌, ◌||◌, ◌&&◌, some, arith, ◌==◌, leb, is_some,
}
use kmonad_device_manager.Operations.Target.{session_timeout, millisecond}

-- Below 2 ^ 63 nanoseconds exactly the absent limit and those from 1000 to 30000 are accepted.
session_timeout-is_some :
    (timeout_ms : ℕ)
    → timeout_ms < 9223372036855
    → is_some (session_timeout timeout_ms)
      ≡ (timeout_ms == 0 || (leb 1000 timeout_ms && leb timeout_ms 30000))
unfolding session_timeout
session_timeout-is_some timeout_ms small = ground arith

-- From 2 ^ 64 nanoseconds on the product wraps: limits of more than five hundred years, which the
-- check is to refuse, are accepted as limits of one to thirty seconds.
session_timeout_wraps :
    (k : ℕ)
    → 1001 ≤ k
    → k ≤ 30000
    → session_timeout (18446744073709 + k) ≡ some (k * millisecond - 551616)
unfolding session_timeout
session_timeout_wraps k low high = ground arith
