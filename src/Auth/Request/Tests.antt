-- ===== src/Auth/Request/Tests.antt =====
-- A request of frontend/src/features/auth-session-runtime.ts that is refused once.
use stechbaza_iot.Prelude.{[], false, none, refl, some, true, ◌∷◌, ◌≡◌}
use stechbaza_iot.Api.Errors.{Failure, api_error, err, ok, unauthorized}
use stechbaza_iot.Auth.Request.{
  Answers, RequestOptions, added_controller, answer_of, asked_refresh, asked_token, attempt,
  authorized_api_request, deleted_controller, is_unauthorized, may_retry, resend, retry_with,
  send_with, sent, with_token,
}
use stechbaza_iot.Auth.Request.Sends.{AreAllowed, authorized_api_request-AreAllowed, tokens_sent}
use stechbaza_iot.Js.Value.{null, str}

abbrev options : RequestOptions
options = record { path = "/api/v1/sites"; method = none; retry_on_unauthorized = none }

abbrev refusal : Failure
refusal = api_error (record {
  message = "401";
  kind = unauthorized;
  status = some 401;
  method = "GET";
  url = "/api/v1/sites";
  retry_after_seconds = none;
  request_id = none;
  details = null;
})

abbrev answers : Answers
answers = record {
  logout_at_start = false;
  access_token = ok (some "old");
  aborted_with_token = false;
  logout_with_token = false;
  first = λ token. err refusal;
  aborted_after_failure = false;
  logout_after_failure = false;
  refreshed = ok true;
  replacement_token = some "new";
  logout_after_refresh = false;
  second = λ token. ok (str token);
}

refused_once : authorized_api_request options answers ≡ (
  added_controller
      ∷ asked_token
      ∷ sent "old"
      ∷ asked_refresh
      ∷ sent "new"
      ∷ deleted_controller
      ∷ [],
  ok (str "new"),
)
unfolding authorized_api_request attempt with_token send_with answer_of may_retry is_unauthorized
    retry_with resend
refused_once = refl

authorized_api_request-AreAllowed_example :
    AreAllowed options answers (tokens_sent (authorized_api_request options answers).0)
authorized_api_request-AreAllowed_example = authorized_api_request-AreAllowed options answers
