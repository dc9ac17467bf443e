-- ===== src/Api/Polling/Tests.antt =====
-- Budgets of frontend/src/lib/api/polling-policy.ts at concrete calls.
use stechbaza_iot.Prelude.{List, [], arith, false, inr, none, refl, some, true, ◌∷◌, ◌≡◌}
use stechbaza_iot.Api.Errors.{ApiError, Failure, api_error, error, rate_limited}
use stechbaza_iot.Api.Polling.{backoff, blocked, failure, new_budget, retry_after}
use stechbaza_iot.Api.Polling.History.{Event, apply, failed, manual_blocks, run}
use stechbaza_iot.Api.Polling.Waiting.{failure_blocks}
use stechbaza_iot.Js.Value.{null}
use stechbaza_iot.Prelude.Int.{pos}

abbrev busy : ApiError
busy = record {
  message = "busy";
  kind = rate_limited;
  status = some 429;
  method = "GET";
  url = "http://127.0.0.1:8001/api/v1/alarms";
  retry_after_seconds = some 30;
  request_id = none;
  details = null;
}

abbrev busy_answer : Failure
busy_answer = api_error busy

abbrev calls : List Event
calls = failed (error "offline") 5000 1000 (pos 3) ∷ failed busy_answer 5000 2000 (pos 7) ∷ []

-- The second failure waits 30 seconds, for Retry-After, and not the 10 seconds of the backoff.
calls_wait : run 10 new_budget calls ≡ record {
  failures = 2;
  error = some busy_answer;
  next_attempt_at = 3200000;
  retry_after_at = 32000;
}
unfolding run apply failure backoff retry_after new_budget
calls_wait = refl

failure_blocks_example :
    blocked 10 (failure 10 new_budget busy_answer 5000 1000 (pos 3)) false 30999 ≡ true
failure_blocks_example =
    failure_blocks 10 new_budget busy_answer 5000 1000 (pos 3) 30999 (omega arith)
      (inr (busy, 30, refl, refl, omega arith))

manual_blocks_example : blocked 10 (run 10 new_budget calls) false 31000 ≡ true
manual_blocks_example =
    manual_blocks 10 calls 31000 (omega arith)
      (unfold blocked run apply failure backoff retry_after new_budget in refl)
