-- ===== src/Api/QueryClient.antt =====
-- frontend/src/lib/api/query-client.ts: the automatic retries of a query. The client itself is a
-- library; these are the two functions that it is given.
mod Tests
use stechbaza_iot.Prelude.{
  Bool, arith, false, if◌then◌else◌, leb, min, true, ℕ, ◌*◌, ◌<◌, ◌^◌, ◌↔◌, ◌≡◌, ◌≢◌,
}
use stechbaza_iot.Api.Errors.{
  ApiError, ErrorKind, Failure, aborted, api_error, api_error_kind_for_status, conflict, error,
  forbidden, invalid_response, not_found, rate_limited, unauthorized, validation,
}

-- NO_AUTOMATIC_RETRY.has(kind)
abbrev pub no_automatic_retry : ErrorKind → Bool
no_automatic_retry unauthorized = true
no_automatic_retry forbidden = true
no_automatic_retry not_found = true
no_automatic_retry conflict = true
no_automatic_retry validation = true
no_automatic_retry rate_limited = true
no_automatic_retry aborted = true
no_automatic_retry invalid_response = true
no_automatic_retry kind = false

pub should_retry_api_query : ℕ → Failure → Bool
should_retry_api_query failure_count (error message) = if leb 2 failure_count then false else true
should_retry_api_query failure_count (api_error e) =
    if leb 2 failure_count then false else if no_automatic_retry e.kind then false else true

-- retryDelay, in ms
pub retry_delay : ℕ → ℕ
retry_delay attempt_index = min (1000 * 2 ^ attempt_index) 5000

-- An error of the client that has the kind of a status, as the error of a refused answer has, is
-- asked for again on its own exactly if fewer than two retries failed and the status is none of
-- 401, 403, 404, 409, 422 and 429.
pub should_retry_iff :
    (failure_count : ℕ) (e : ApiError) (status : ℕ)
    → e.kind ≡ api_error_kind_for_status status
    → (should_retry_api_query failure_count (api_error e) ≡ true) ↔ (
        (failure_count < 2)
        × (status ≢ 401)
        × (status ≢ 403)
        × (status ≢ 404)
        × (status ≢ 409)
        × (status ≢ 422)
        × (status ≢ 429))
unfolding should_retry_api_query api_error_kind_for_status
should_retry_iff failure_count e status h = ground arith
