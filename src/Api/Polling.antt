-- ===== src/Api/Polling.antt =====
-- frontend/src/lib/api/polling-policy.ts: when a panel may ask the backend again.
-- The jitter is a fraction j / q, and the moment of the next attempt is kept in units of
-- 1 / (10 q) ms, in which the sum `now + backoff * (1 + jitter * 0.1)` is a whole number: the
-- model computes it exactly, where the program rounds it to a double.
pub mod Waiting
pub mod History
mod Tests
use stechbaza_iot.Prelude.{
  Bool, Option, false, if◌then◌else◌, ltb, max, min, none, some, true, ℕ, ◌*◌, ◌+◌, ◌-◌, ◌==◌, ◌^◌,
}
use stechbaza_iot.Api.Errors.{
  ErrorKind, Failure, api_error, error, network, rate_limited, server, timeout,
}
use stechbaza_iot.Prelude.Int.{pos_part, ℤ}

pub record PollingBudget : Type 0 where
  pub failures : ℕ
  pub error : Option Failure
  pub next_attempt_at : ℕ  -- in units of 1 / (10 q) ms
  pub retry_after_at : ℕ  -- in ms

pub new_budget : PollingBudget
new_budget = record { failures = 0; error = none; next_attempt_at = 0; retry_after_at = 0 }

-- transient.has(kind)
abbrev pub is_transient : ErrorKind → Bool
is_transient network = true
is_transient timeout = true
is_transient server = true
is_transient rate_limited = true
is_transient kind = false

-- isApiError(error) && error.retryAfterSeconds !== null ? now + error.retryAfterSeconds * 1000 : 0
pub retry_after : Failure → ℕ → ℕ
retry_after (error message) now = 0
retry_after (api_error e) now = elim e.retry_after_seconds [ none ↦ 0 | some s ↦ now + s * 1000 ]

-- Math.min(300000, baseMs * 2 ** Math.min(failures - 1, 5)), after the count went up
pub backoff : ℕ → ℕ → ℕ
backoff base_ms failures = min 300000 (base_ms * 2 ^ min (failures - 1) 5)

-- isApiError(error) && transient.has(error.kind)
abbrev pub may_poll_after : Failure → Bool
may_poll_after (error message) = false
may_poll_after (api_error e) = is_transient e.kind

pub success : PollingBudget → PollingBudget
success b = record b { failures = 0; error = none; next_attempt_at = 0; retry_after_at = 0 }

module _ (q : ℕ) where
  -- Math.max(0, Math.min(1, jitter)) of a jitter j / q, as a numerator over q
  abbrev pub clamp_jitter : ℤ → ℕ
  clamp_jitter j = min q (pos_part j)

  pub failure : PollingBudget → Failure → ℕ → ℕ → ℤ → PollingBudget
  failure b e base_ms now jitter =
      let wait = backoff base_ms (b.failures + 1) in
      let after = retry_after e now in
      record b {
        error = some e;
        failures = b.failures + 1;
        retry_after_at = after;
        next_attempt_at =
            max ((now + wait) * (10 * q) + wait * clamp_jitter jitter) (after * (10 * q));
      }

  -- The time to the next attempt, in units of 1 / (10 q) ms; `none` is false.
  interval_of : Option Failure → ℕ → ℕ → ℕ → Option ℕ
  interval_of none next base_ms now = some (base_ms * (10 * q))
  interval_of (some e) next base_ms now =
      if may_poll_after e then some (max (1000 * (10 * q)) (next - now * (10 * q))) else none

  pub interval : PollingBudget → ℕ → ℕ → Option ℕ
  interval b base_ms now =
      if base_ms == 0 then none else interval_of b.error b.next_attempt_at base_ms now

  pub blocked : PollingBudget → Bool → ℕ → Bool
  blocked b manual now =
      if manual then ltb now b.retry_after_at else ltb (now * (10 * q)) b.next_attempt_at
