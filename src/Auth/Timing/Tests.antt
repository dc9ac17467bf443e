-- ===== src/Auth/Timing/Tests.antt =====
-- Refresh times of frontend/src/features/auth-coordination.ts for concrete sessions.
use stechbaza_iot.Prelude.{none, refl, some, ◌*◌, ◌≡◌, ◌≤◌}
use stechbaza_iot.Auth.Timing.{refresh_delay_ms, refresh_retry_delay_bounds, refresh_retry_delay_ms}
use stechbaza_iot.Prelude.Int.{pos, ◌+ℤ◌, ◌-ℤ◌}

-- A token of fifteen minutes is refreshed one minute before its end.
fifteen_minutes : refresh_delay_ms (pos 1000000) (pos 100000) ≡ pos 840000
unfolding refresh_delay_ms ◌-ℤ◌
fifteen_minutes = refl

refresh_retry_delay_bounds_example :
    (1000 ≤ refresh_retry_delay_ms (pos 2) (some 90))
    × (90 * 1000 ≤ refresh_retry_delay_ms (pos 2) (some 90))
    × (1000 ≤ refresh_retry_delay_ms (pos 2) none)
    × (refresh_retry_delay_ms (pos 2) none ≤ 60000)
    × (refresh_retry_delay_ms (pos 2) none ≤ refresh_retry_delay_ms (pos 2 +ℤ pos 1) none)
refresh_retry_delay_bounds_example = refresh_retry_delay_bounds (pos 2) 90
