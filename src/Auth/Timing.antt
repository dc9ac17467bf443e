-- ===== src/Auth/Timing.antt =====
-- frontend/src/features/auth-coordination.ts: when a session is refreshed.
mod Tests
use stechbaza_iot.Prelude.{
  Bool, Option, arith, inl, inr, max, min, none, refl, some, suc, zero, ℕ, ◌&&◌, ◌*◌, ◌/◌, ◌<◌, ◌≡◌,
  ◌≤◌, ◌⊎◌,
}
use stechbaza_iot.Auth.Channel.{SessionSnapshot}
use stechbaza_iot.Prelude.Int.{
  int_laws, ltb_ℤ, max_ℤ, negsuc, pos, pos_part, ℤ, ◌+ℤ◌, ◌-ℤ◌, ◌<ℤ◌, ◌≤ℤ◌,
}

-- isSnapshotUsable(snapshot, nowMs, minimumValidityMs)
pub is_snapshot_usable : SessionSnapshot → ℤ → ℕ → Bool
is_snapshot_usable s now minimum =
    ltb_ℤ (pos minimum) (s.access_expires_at -ℤ now)
    && ltb_ℤ (pos minimum) (s.session_expires_at -ℤ now)

-- Math.floor(remaining * 0.2), where `remaining` is not negative; the double 0.2 is above 1 / 5 by
-- less than 2 ^ -56, so that the product has the floor of remaining / 5 below 2 ^ 50. A negative
-- number stays below the 5000 that it is compared with.
abbrev fifth : ℤ → ℕ
fifth remaining = pos_part remaining / 5

abbrev early_refresh_ms : ℤ → ℕ
early_refresh_ms remaining = min 60000 (max 5000 (fifth remaining))

-- refreshDelayMs(accessExpiresAt, nowMs)
pub refresh_delay_ms : ℤ → ℤ → ℤ
refresh_delay_ms access_expires_at now =
    let remaining = access_expires_at -ℤ now in
    max_ℤ (pos 1000) (remaining -ℤ pos (early_refresh_ms remaining))

-- The schedule at Math.min(Math.max(0, attempt), 4)
retry_schedule : ℕ → ℕ
retry_schedule zero = 1000
retry_schedule (suc zero) = 5000
retry_schedule (suc (suc zero)) = 15000
retry_schedule (suc (suc (suc zero))) = 30000
retry_schedule (suc (suc (suc (suc n)))) = 60000

-- refreshRetryDelayMs(attempt, retryAfterSeconds)
pub refresh_retry_delay_ms : ℤ → Option ℕ → ℕ
refresh_retry_delay_ms attempt none = retry_schedule (min (pos_part attempt) 4)
refresh_retry_delay_ms attempt (some seconds) = max 1000 (seconds * 1000)

delay_of-pos :
    (n : ℕ)
    → let delay = max_ℤ (pos 1000) (pos n -ℤ pos (early_refresh_ms (pos n))) in
      (pos 1000 ≤ℤ delay)
      × (((delay +ℤ pos 5000 ≤ℤ pos n) × (pos n ≤ℤ delay +ℤ pos 60000))
          ⊎ ((n < 6000) × (delay ≡ pos 1000)))
unfolding ◌-ℤ◌ ◌+ℤ◌
delay_of-pos n = ground arith

delay_of-negsuc :
    (n : ℕ) → max_ℤ (pos 1000) (negsuc n -ℤ pos (early_refresh_ms (negsuc n))) ≡ pos 1000
unfolding ◌-ℤ◌
delay_of-negsuc n = ground arith

delay_of :
    (r : ℤ)
    → let delay = max_ℤ (pos 1000) (r -ℤ pos (early_refresh_ms r)) in
      (pos 1000 ≤ℤ delay)
      × (((delay +ℤ pos 5000 ≤ℤ r) × (r ≤ℤ delay +ℤ pos 60000))
          ⊎ ((r <ℤ pos 6000) × (delay ≡ pos 1000)))
delay_of (pos n) = ground (arith, delay_of-pos n)
delay_of (negsuc n) = rw (delay_of-negsuc n) (omega arith, inr (omega arith, refl))

-- One second or later: five to sixty seconds before the end, or in one second where less than six
-- are left.
abbrev InWindow : ℤ → ℤ → ℤ → Type 0
InWindow delay access_expires_at now =
    (pos 1000 ≤ℤ delay)
    × (((now +ℤ delay +ℤ pos 5000 ≤ℤ access_expires_at)
          × (access_expires_at ≤ℤ now +ℤ delay +ℤ pos 60000))
        ⊎ ((access_expires_at <ℤ now +ℤ pos 6000) × (delay ≡ pos 1000)))

shift_window :
    (delay access_expires_at now : ℤ)
    → (pos 1000 ≤ℤ delay)
      × (((delay +ℤ pos 5000 ≤ℤ access_expires_at -ℤ now)
            × (access_expires_at -ℤ now ≤ℤ delay +ℤ pos 60000))
          ⊎ ((access_expires_at -ℤ now <ℤ pos 6000) × (delay ≡ pos 1000)))
    → InWindow delay access_expires_at now
shift_window delay access_expires_at now (low, inl (a, b)) =
    (low, inl (omega int_laws, omega int_laws))
shift_window delay access_expires_at now (low, inr (a, e)) = (low, inr (omega int_laws, e))

-- The refresh of an access token is due in one second or later: five to sixty seconds before the
-- token ends, or in one second where the token lasts for less than six.
refresh_delay_window :
    (access_expires_at now : ℤ)
    → InWindow (refresh_delay_ms access_expires_at now) access_expires_at now
unfolding refresh_delay_ms
refresh_delay_window access_expires_at now =
    shift_window _ access_expires_at now (delay_of (access_expires_at -ℤ now))

retry_schedule_range : (n : ℕ) → (1000 ≤ retry_schedule n) × (retry_schedule n ≤ 60000)
unfolding retry_schedule
retry_schedule_range zero = omega arith
retry_schedule_range (suc zero) = omega arith
retry_schedule_range (suc (suc zero)) = omega arith
retry_schedule_range (suc (suc (suc zero))) = omega arith
retry_schedule_range (suc (suc (suc (suc n)))) = omega arith

retry_schedule-suc : (n : ℕ) → retry_schedule n ≤ retry_schedule (suc n)
unfolding retry_schedule
retry_schedule-suc zero = omega arith
retry_schedule-suc (suc zero) = omega arith
retry_schedule-suc (suc (suc zero)) = omega arith
retry_schedule-suc (suc (suc (suc zero))) = omega arith
retry_schedule-suc (suc (suc (suc (suc n)))) = omega arith

one_more :
    (a : ℤ) (m : ℕ)
    → m ≡ min (pos_part a) 4
    → (min (pos_part (a +ℤ pos 1)) 4 ≡ m) ⊎ (min (pos_part (a +ℤ pos 1)) 4 ≡ suc m)
unfolding ◌+ℤ◌
one_more a m e = ground arith

retry_schedule_mono :
    (a : ℤ) → retry_schedule (min (pos_part a) 4) ≤ retry_schedule (min (pos_part (a +ℤ pos 1)) 4)
retry_schedule_mono a = elim (one_more a (min (pos_part a) 4) refl) [
  | inl same ↦ rw same (omega arith)
  | inr next ↦ rw next (retry_schedule-suc (min (pos_part a) 4))
]

-- Retries wait for at least one second, for all of Retry-After if the server sent it, and without it
-- for at most one minute and never less than the attempt before.
pub refresh_retry_delay_bounds :
    (attempt : ℤ) (seconds : ℕ)
    → (1000 ≤ refresh_retry_delay_ms attempt (some seconds))
      × (seconds * 1000 ≤ refresh_retry_delay_ms attempt (some seconds))
      × (1000 ≤ refresh_retry_delay_ms attempt none)
      × (refresh_retry_delay_ms attempt none ≤ 60000)
      × (refresh_retry_delay_ms attempt none ≤ refresh_retry_delay_ms (attempt +ℤ pos 1) none)
unfolding refresh_retry_delay_ms
refresh_retry_delay_bounds attempt seconds = (
  omega arith,
  omega arith,
  (retry_schedule_range (min (pos_part attempt) 4)).0,
  (retry_schedule_range (min (pos_part attempt) 4)).1,
  retry_schedule_mono attempt,
)
