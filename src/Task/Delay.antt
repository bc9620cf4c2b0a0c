-- ===== src/Task/Delay.antt =====
-- internal/runtime/task_worker.go: `heartbeatDelay` wakes the heartbeat in time.
use app_module_sdk.Base.{◌+◌, ◌≤◌, ◌≡◌, ◌⊎◌, false, arith}
use app_module_sdk.Base.Int.{ℤ, pos, ◌≤ℤ◌}
use app_module_sdk.Task.{Instant, Capability}
use app_module_sdk.Task.Manager.{overdue, heartbeat_delay}

-- Without a configured delay the next heartbeat comes after 1 nanosecond at least and 30 seconds at
-- most, and, unless the lease is to be renewed already, no later than the instant at which it is to
-- be refreshed, and 15 seconds before it expires; a zero instant sets no bound.
pub heartbeat_delay-bounds :
    (configured : ℤ) (c : Capability) (now : Instant)
    → configured ≤ℤ pos 0
    → (1 ≤ heartbeat_delay configured c now)
      × (heartbeat_delay configured c now ≤ 30_000_000_000)
      × (overdue c now ≡ false
          → ((c.refresh_after ≡ 0) ⊎ (now + heartbeat_delay configured c now ≤ c.refresh_after))
            × ((c.expires_at ≡ 0)
                ⊎ (now + heartbeat_delay configured c now + 15_000_000_000 ≤ c.expires_at)))
unfolding heartbeat_delay
heartbeat_delay-bounds (pos n) c now h = ground arith
heartbeat_delay-bounds (ℤ.negsuc n) c now h = ground arith
