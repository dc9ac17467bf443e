-- ===== src/Auth/Request.antt =====
-- frontend/src/features/auth-session-runtime.ts: a request with the session's token.
pub mod Sends
mod Tests
use stechbaza_iot.Prelude.{
  Bool, List, Option, String, [], false, if◌then◌else◌, none, not, or_default, some, str_eq, true,
  ◌&&◌, ◌++◌, ◌||◌, ◌∷◌,
}
use stechbaza_iot.Api.Errors.{Failure, Result, aborted, api_error, err, error, ok, unauthorized}
use stechbaza_iot.Js.Text.{is_empty}
use stechbaza_iot.Js.Value.{Value, end, field, null, obj, str}

-- The options that this function reads; it hands all but the last to apiRequest.
pub record RequestOptions : Type 0 where
  pub path : String
  pub method : Option String
  pub retry_on_unauthorized : Option Bool

-- What the calls of a run answer, each at its place in the run. A callback may throw.
pub record Answers : Type 0 where
  -- logoutRequested() before the token is asked for
  pub logout_at_start : Bool
  pub access_token : Result (Option String)
  -- after it: signal.aborted, logoutRequested()
  pub aborted_with_token : Bool
  pub logout_with_token : Bool
  -- apiRequest with the token
  pub first : String → Result Value
  -- after its failure
  pub aborted_after_failure : Bool
  pub logout_after_failure : Bool
  pub refreshed : Result Bool
  pub replacement_token : Option String
  pub logout_after_refresh : Bool
  -- apiRequest with the replacement
  pub second : String → Result Value

-- What a run does to the session and the network.
pub data Effect : Type 0 where
  added_controller : Effect
  asked_token : Effect
  sent : String → Effect
  asked_refresh : Effect
  deleted_controller : Effect

abbrev pub Run : Type 0
Run = List Effect × Result Value

abbrev pub after : Effect → Run → Run
after x (effects, r) = (x ∷ effects, r)

abbrev pub raise : Failure → Run
raise e = ([], err e)

-- `token` is null or empty
abbrev pub text_of : Option String → Option String
text_of none = none
text_of (some s) = if is_empty s then none else some s

no_access_token_error : String → Failure
no_access_token_error path = api_error (record {
  message = "Сесію не вдалося підтвердити.";
  kind = unauthorized;
  status = some 401;
  method = "GET";
  url = path;
  retry_after_seconds = none;
  request_id = none;
  details = null;
})

logout_cancelled_request_error : String → String → Failure
logout_cancelled_request_error path method = api_error (record {
  message = "Запит скасовано під час завершення сесії.";
  kind = aborted;
  status = none;
  method = method;
  url = path;
  retry_after_seconds = none;
  request_id = none;
  details = obj (field "reason" (str "logout") end);
})

abbrev pub method_of : RequestOptions → String
method_of o = or_default o.method "GET"

-- retryOnUnauthorized ?? method === "GET"
pub may_retry : RequestOptions → Bool
may_retry o = or_default o.retry_on_unauthorized (str_eq (method_of o) "GET")

-- isApiError(error) && error.kind === "unauthorized"
pub is_unauthorized : Failure → Bool
is_unauthorized (error message) = false
is_unauthorized (api_error e) = elim e.kind [ unauthorized ↦ true | _ ↦ false ]

resend : Answers → Failure → Option String → Run
resend a failure none = raise failure
resend a failure (some token) =
    if a.logout_after_refresh then raise failure else (sent token ∷ [], a.second token)

retry_with : Answers → Failure → Result Bool → Run
retry_with a failure (err e) = raise e
retry_with a failure (ok false) = raise failure
retry_with a failure (ok true) = resend a failure (text_of a.replacement_token)

-- The first request and its catch block.
answer_of : RequestOptions → Answers → Result Value → Run
answer_of o a (ok v) = ([], ok v)
answer_of o a (err e) =
    if may_retry o && is_unauthorized e && not a.aborted_after_failure && not a.logout_after_failure
    then after asked_refresh (retry_with a e a.refreshed)
    else raise e

send_with : RequestOptions → Answers → Option String → Run
send_with o a none = raise (no_access_token_error o.path)
send_with o a (some token) = after (sent token) (answer_of o a (a.first token))

with_token : RequestOptions → Answers → Result (Option String) → Run
with_token o a (err e) = raise e
with_token o a (ok token) =
    if a.aborted_with_token || a.logout_with_token
    then raise (logout_cancelled_request_error o.path (method_of o))
    else send_with o a (text_of token)

-- The try block.
attempt : RequestOptions → Answers → Run
attempt o a =
    if a.logout_at_start
    then raise (logout_cancelled_request_error o.path (method_of o))
    else after asked_token (with_token o a a.access_token)

abbrev finally : Run → Run
finally (effects, r) = (effects ++ (deleted_controller ∷ []), r)

-- authorizedApiRequest(dependencies, options)
pub authorized_api_request : RequestOptions → Answers → Run
authorized_api_request o a = after added_controller (finally (attempt o a))
