-- ===== src/Api/QueryClient/Tests.antt =====
-- Retries of frontend/src/lib/api/query-client.ts at concrete answers.
use stechbaza_iot.Prelude.{none, refl, some, true, ℕ, ◌<◌, ◌↔◌, ◌≡◌, ◌≢◌}
use stechbaza_iot.Api.Errors.{ApiError, api_error, api_error_kind_for_status, server}
use stechbaza_iot.Api.QueryClient.{retry_delay, should_retry_api_query, should_retry_iff}
use stechbaza_iot.Js.Value.{null}

abbrev gone : ApiError
gone = record {
  message = "";
  kind = server;
  status = some 503;
  method = "GET";
  url = "http://127.0.0.1:8001/api/v1/alarms";
  retry_after_seconds = none;
  request_id = none;
  details = null;
}

abbrev unavailable : ℕ
unavailable = 503

should_retry_iff_example : (should_retry_api_query 1 (api_error gone) ≡ true) ↔ (
    (1 < 2)
    × (unavailable ≢ 401)
    × (unavailable ≢ 403)
    × (unavailable ≢ 404)
    × (unavailable ≢ 409)
    × (unavailable ≢ 422)
    × (unavailable ≢ 429))
should_retry_iff_example =
    should_retry_iff 1 gone unavailable (unfold api_error_kind_for_status in refl)

delays : (retry_delay 0 ≡ 1000) × (retry_delay 2 ≡ 4000) × (retry_delay 3 ≡ 5000)
unfolding retry_delay
delays = (refl, refl, refl)
