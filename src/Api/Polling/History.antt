-- ===== src/Api/Polling/History.antt =====
-- What holds of a polling budget of frontend/src/lib/api/polling-policy.ts after any calls.
use stechbaza_iot.Prelude.{
  List, [], arith, false, mul-lt, none, some, true, ℕ, ◌*◌, ◌<◌, ◌↔◌, ◌∷◌, ◌≡◌, ◌≤◌,
}
use stechbaza_iot.Api.Errors.{Failure}
use stechbaza_iot.Api.Polling.{
  PollingBudget, blocked, failure, interval, interval_of, new_budget, success,
}
use stechbaza_iot.Prelude.Int.{ℤ}

-- The calls that change a budget.
pub data Event : Type 0 where
  succeeded : Event
  failed : Failure → ℕ → ℕ → ℤ → Event

pub record IsCoherent (q : ℕ) (b : PollingBudget) : Type 0 where
  pub ordered : b.retry_after_at * (10 * q) ≤ b.next_attempt_at
  pub counted : (b.failures ≡ 0) ↔ (b.error ≡ none)
  pub fresh : b.error ≡ none → b.next_attempt_at ≡ 0

module _ (q : ℕ) where
  unfoldable pub apply : PollingBudget → Event → PollingBudget
  apply b succeeded = success b
  apply b (failed e base_ms now jitter) = failure q b e base_ms now jitter

  unfoldable pub run : PollingBudget → List Event → PollingBudget
  run b [] = b
  run b (e ∷ es) = run (apply b e) es

  apply-IsCoherent : (b : PollingBudget) (e : Event) → IsCoherent q b → IsCoherent q (apply b e)
  unfolding apply success failure
  apply-IsCoherent b succeeded h = ground arith
  apply-IsCoherent b (failed e base_ms now jitter) h = ground arith

  run-IsCoherent : (b : PollingBudget) (es : List Event) → IsCoherent q b → IsCoherent q (run b es)
  unfolding run
  run-IsCoherent b [] h = h
  run-IsCoherent b (e ∷ es) h = run-IsCoherent (apply b e) es (apply-IsCoherent b e h)

  new_budget-IsCoherent : IsCoherent q new_budget
  unfolding new_budget
  new_budget-IsCoherent = ground arith

  -- After any calls, whatever blocks a manual refresh blocks the automatic ones too: while
  -- Retry-After lasts nothing is asked.
  pub manual_blocks :
      (es : List Event) (t : ℕ)
      → 0 < q
      → blocked q (run new_budget es) true t ≡ true
      → blocked q (run new_budget es) false t ≡ true
  unfolding blocked
  manual_blocks es t positive h =
      let c = run-IsCoherent new_budget es new_budget-IsCoherent in
      ground (arith, c.ordered, mul-lt t (run new_budget es).retry_after_at (10 * q))

  -- After any calls, a budget with no error blocks nothing and polls at the panel's own rate.
  idle_polls :
      (es : List Event) (base_ms t : ℕ)
      → (run new_budget es).error ≡ none
      → 0 < base_ms
      → (blocked q (run new_budget es) false t ≡ false)
        × (interval q (run new_budget es) base_ms t ≡ some (base_ms * (10 * q)))
  unfolding blocked interval interval_of
  idle_polls es base_ms t h positive =
      let c = run-IsCoherent new_budget es new_budget-IsCoherent in
      grind (arith, c.ordered, c.fresh)
