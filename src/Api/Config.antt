-- ===== src/Api/Config.antt =====
-- frontend/src/lib/api/config.ts: the settings of the client, and the URL of a request.
pub mod Checked
mod Tests
use stechbaza_iot.Prelude.{
  Bool, Option, String, any, code, if◌then◌else◌, leb, none, not, some, str_eq, ℕ, ◌&&◌, ◌++◌, ◌==◌,
  ◌||◌, ◌∷◌,
}
use stechbaza_iot.Api.Errors.{Failure, Result, err, error, ok}
use stechbaza_iot.Host.{Host, Url}
use stechbaza_iot.Js.Number.{integer?}
use stechbaza_iot.Js.Text.{codes, is_empty, trim}
use stechbaza_iot.Prelude.Int.{pos, ℤ}
use Prim.Native.String
use text.Mathlib.Text.{starts_with}

-- /[\\\u0000-\u0020#]/u
abbrev is_forbidden : ℕ → Bool
is_forbidden c = c == 0x5c || leb c 0x20 || c == 0x23

abbrev path_message : String
path_message = "API path must be a root-relative path on the configured backend."

abbrev origin_message : String
origin_message = "API request cannot leave the configured backend origin."

abbrev pub is_root_relative : String → Bool
is_root_relative path =
    starts_with path "/" && not (starts_with path "//") && not (any is_forbidden (codes path))

module _ ⦃h : Host⦄ where
  -- The check of the URL that the class made; a TypeError of the class passes through.
  within_backend : Option Url → Result Url
  within_backend none = err (error "Invalid URL")
  within_backend (some url) =
      if str_eq url.origin h.config.base_url && is_empty url.username && is_empty url.password
      then ok url
      else err (error origin_message)

  unfoldable pub build_api_url : String → Result Url
  unfolding within_backend
  build_api_url path =
      if is_root_relative path
      then within_backend (h.new_url path (String.◌++◌ h.config.base_url "/"))
      else err (error path_message)

-- value?.trim() || fallback
trimmed_or : Option String → String → String
trimmed_or none fallback = fallback
trimmed_or (some value) fallback = let s = trim value in if is_empty s then fallback else s

-- pathname.replace(/\/+$/, "")
pub strip_slashes : String → String
strip_slashes String.[] = String.[]
strip_slashes (String.◌∷◌ c s) =
    let rest = strip_slashes s in
    if is_empty rest && code c == 0x2f then String.[] else String.◌∷◌ c rest

origin_of_url : Option Url → Result String
origin_of_url none = err (error "NEXT_PUBLIC_API_BASE_URL must be an absolute http(s) URL.")
origin_of_url (some url) =
    if not (str_eq url.protocol "http:") && not (str_eq url.protocol "https:")
    then err (error "NEXT_PUBLIC_API_BASE_URL must use http or https.")
    else if not (is_empty url.username) || not (is_empty url.password)
    then err (error "NEXT_PUBLIC_API_BASE_URL must not contain credentials.")
    else if not (is_empty url.search) || not (is_empty url.hash)
    then err (error "NEXT_PUBLIC_API_BASE_URL must not contain query or fragment values.")
    else if not (is_empty (strip_slashes url.pathname))
        && not (str_eq (strip_slashes url.pathname) "/api/v1")
    then err (error "NEXT_PUBLIC_API_BASE_URL may contain only the optional /api/v1 suffix.")
    else ok url.origin

-- normalizeApiBaseUrl(value), where `parse` is `new URL` of an absolute URL
pub normalize_api_base_url : (String → Option Url) → Option String → Result String
normalize_api_base_url parse value =
    origin_of_url (parse (trimmed_or value "http://127.0.0.1:8001"))

timeout_failure : Failure
timeout_failure = error "NEXT_PUBLIC_API_TIMEOUT_MS must be an integer from 1000 to 60000."

timeout_of : Option ℤ → Result ℕ
timeout_of (some (pos n)) = if leb 1000 n && leb n 60000 then ok n else err timeout_failure
timeout_of v = err timeout_failure

module _ ⦃h : Host⦄ where
  -- normalizeTimeout(value)
  pub normalize_timeout : Option String → Result ℕ
  normalize_timeout none = ok 10000
  normalize_timeout (some value) =
      if is_empty (trim value) then ok 10000 else timeout_of (integer? (h.to_number value))
