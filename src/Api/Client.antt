-- ===== src/Api/Client.antt =====
-- frontend/src/lib/api/client.ts: a request to the backend, and what becomes of its answer. What
-- `fetch`, the timer and the signals do is an argument.
pub mod Failures
mod Tests
use Prim.Native.String
use text.Mathlib.Text.{starts_with}
use stechbaza_iot.Prelude.{
  Bool, List, Option, String, [], all, code, false, if◌then◌else◌, leb, ltb, none, or_default, some,
  ℕ, ◌&&◌, ◌++◌, ◌-◌, ◌==◌, ◌||◌, ◌∷◌,
}
use stechbaza_iot.Api.Config.{build_api_url}
use stechbaza_iot.Api.Errors.{
  ErrorKind, Failure, Result, aborted, api_error, api_error_kind_for_status, err, error,
  invalid_response, network, ok, timeout, ◌>>=◌, ◌>>◌,
}
use stechbaza_iot.Api.Errors.Message.{problem_message}
use stechbaza_iot.Api.Errors.Retry.{parse_retry_after}
use stechbaza_iot.Host.{Host, Url}
use stechbaza_iot.Js.Text.{is_empty}
use stechbaza_iot.Js.Value.{Value, null, str}
use stechbaza_iot.Prelude.Int.{ℤ}

-- String(value) of a primitive that is not null, null, or undefined
pub data QueryValue : Type 0 where
  shown_value : String → QueryValue
  null_value : QueryValue
  missing_value : QueryValue

pub record ApiRequestOptions : Type 0 where
  pub path : String
  pub method : Option String
  -- A value that is not a list is a list of one.
  pub query : List (String × List QueryValue)
  pub body : Option Value
  pub headers : List (String × String)
  pub access_token : Option String
  pub csrf : Bool
  pub credentials : Option String

-- The object that fetch is given.
pub record RequestInit : Type 0 where
  pub method : String
  pub headers : List (String × String)
  pub credentials : String
  pub cache : String
  pub redirect : String
  pub body : Option Value

-- An answer of the backend, with what reading its text gives and JSON.parse makes of the text.
pub record Response : Type 0 where
  pub status : ℕ
  pub text : Option String
  pub parsed : Option Value
  pub content_type : Option String
  pub retry_after : Option String
  pub request_id : Option String

-- What happens after the request is sent; `none` is a rejection of fetch. The flags are those that
-- hold when an error is caught.
pub record Exchange : Type 0 where
  pub response : Option Response
  pub did_timeout : Bool
  pub is_aborted : Bool
  pub now : ℤ

params_of : String → List QueryValue → List (String × String)
params_of key [] = []
params_of key (shown_value s ∷ rest) = (key, s) ∷ params_of key rest
params_of key (null_value ∷ rest) = (key, "") ∷ params_of key rest
params_of key (missing_value ∷ rest) = params_of key rest

-- appendQuery(url, query): the pairs that it appends
pub append_query : List (String × List QueryValue) → List (String × String)
append_query [] = []
append_query ((key, values) ∷ rest) = params_of key values ++ append_query rest

abbrev pub request_method : ApiRequestOptions → String
request_method o = or_default o.method "GET"

authorization : Option String → List (String × String)
authorization none = []
authorization (some token) =
    if is_empty token then [] else ("Authorization", String.◌++◌ "Bearer " token) ∷ []

content_header : Option Value → List (String × String)
content_header none = []
content_header (some v) = ("Content-Type", "application/json") ∷ []

-- The headers in the order in which they are set; a later one replaces an earlier one.
header_entries : ApiRequestOptions → List (String × String)
header_entries o =
    o.headers
    ++ ("Accept", "application/json") ∷ authorization o.access_token
    ++ (if o.csrf then ("X-TechBaza-CSRF", "1") ∷ [] else [])
    ++ content_header o.body

-- new Headers(options.headers) and headers.set, which throw a TypeError for a name or a value that
-- is no header
pub request_headers : ⦃h : Host⦄ → ApiRequestOptions → Result (List (String × String))
request_headers ⦃h⦄ o =
    let entries = header_entries o in
    if all (λ entry. h.is_header entry.0 entry.1) entries
    then ok entries
    else err (error "Invalid header")

pub request_init : ApiRequestOptions → List (String × String) → RequestInit
request_init o headers = record {
  method = request_method o;
  headers = headers;
  credentials = or_default o.credentials "include";
  cache = "no-store";
  redirect = "error";
  body = o.body;
}

pub failure_of : String → ErrorKind → String → String → Failure
failure_of message kind method url = api_error (record {
  message = message;
  kind = kind;
  status = none;
  method = method;
  url = url;
  retry_after_seconds = none;
  request_id = none;
  details = null;
})

-- response.ok
pub is_ok : ℕ → Bool
is_ok status = leb 200 status && leb status 299

take_units : ℕ → String → String
take_units n String.[] = String.[]
take_units n (String.◌∷◌ c s) =
    let size = if ltb (code c) 0x10000 then 1 else 2 in
    let rest = take_units (n - size) s in if leb size n then String.◌∷◌ c rest else String.[]

-- text.slice(0, 500), where a pair of surrogates that the cut divides is left out
slice_500 : String → String
slice_500 s = take_units 500 s

not_json : Response → String → String → String → Failure
not_json r text method url = api_error (record {
  message = "Не вдалося отримати дані. Спробуйте ще раз.";
  kind = invalid_response;
  status = some r.status;
  method = method;
  url = url;
  retry_after_seconds = none;
  request_id = r.request_id;
  details = str (slice_500 text);
})

-- text.includes(part)
includes_text : String → String → Bool
includes_text String.[] part = is_empty part
includes_text (String.◌∷◌ c s) part =
    let rest = includes_text s part in starts_with (String.◌∷◌ c s) part || rest

module _ ⦃h : Host⦄ where
  -- response.headers.get("content-type")?.toLowerCase() ?? "", and includes("json")
  pub says_json : Response → Bool
  says_json r = elim r.content_type [ none ↦ false | some t ↦ includes_text (h.lower t) "json" ]

  parsed_of : Response → String → String → String → Option Value → Result Value
  parsed_of r text method url none = err (not_json r text method url)
  parsed_of r text method url (some v) = ok v

  body_of : Response → String → String → Option String → Result Value
  body_of r method url none = err (error "body")
  body_of r method url (some text) =
      if is_empty text
      then ok null
      else if says_json r
      then parsed_of r text method url r.parsed
      else ok (str text)

  -- readResponseBody(response, method, url)
  pub read_response_body : Response → String → String → Result Value
  read_response_body r method url =
      if r.status == 204 || r.status == 205 then ok null else body_of r method url r.text

  refused : Response → Value → String → String → ℤ → Failure
  refused r payload method url now = api_error (record {
    message = problem_message payload r.status;
    kind = api_error_kind_for_status r.status;
    status = some r.status;
    method = method;
    url = url;
    retry_after_seconds = parse_retry_after r.retry_after now;
    request_id = r.request_id;
    details = payload;
  })

  judged : Response → String → String → ℤ → Value → Result Value
  judged r method url now payload =
      if is_ok r.status then ok payload else err (refused r payload method url now)

  -- The try block, after the answer of fetch
  answer_in : Exchange → String → String → Option Response → Result Value
  answer_in x method url none = err (error "fetch")
  answer_in x method url (some r) = do
    payload ← read_response_body r method url
    judged r method url x.now payload

  -- The catch block
  caught : Exchange → String → String → Result Value → Result Value
  caught x method url (ok v) = ok v
  caught x method url (err (api_error e)) = err (api_error e)
  caught x method url (err (error message)) =
      if x.did_timeout
      then err (failure_of "Відповідь не надійшла вчасно. Спробуйте ще раз." timeout method url)
      else if x.is_aborted
      then err (failure_of "Запит скасовано." aborted method url)
      else err (
          failure_of "Не вдалося підключитися. Перевірте з’єднання з інтернетом." network method
            url)

  -- apiRequest(options), where `with_params` appends pairs to the query of a URL
  pub api_request :
      (Url → List (String × String) → Url) → ApiRequestOptions → Exchange → Result Value
  api_request with_params o x = do
    base ← build_api_url o.path
    headers ← request_headers o
    let url = (with_params base (append_query o.query)).href
    let method = request_method o
    caught x method url (answer_in x method url x.response)
