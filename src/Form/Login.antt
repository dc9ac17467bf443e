-- ===== src/Form/Login.antt =====
-- frontend/src/features/login-model.ts: where a login leads, and its form.
pub mod Destination
pub mod Failed
pub mod Presentation
mod Tests
use Prim.Native.String
use text.Mathlib.Text.{starts_with}
use stechbaza_iot.Prelude.{
  Bool, List, Option, String, [], any, code, false, if◌then◌else◌, leb, max, none, not, or_default,
  some, str_eq, true, ℕ, ◌&&◌, ◌++◌, ◌==◌, ◌||◌, ◌∷◌,
}
use stechbaza_iot.Api.Errors.{
  ApiError, ErrorKind, Failure, aborted, api_error, error, forbidden, invalid_response,
  rate_limited, server, unauthorized, validation,
}
use stechbaza_iot.Api.Errors.Message.{api_error_display_message, is_object, reflect_get}
use stechbaza_iot.Host.{Host, Url}
use stechbaza_iot.Js.Regex.{Regex, alt, char, class, digit, plus, repeat, seq, star, test, word}
use stechbaza_iot.Js.Text.{codes, is_empty, trim, utf16_length}
use stechbaza_iot.Js.Value.{Value, is_text, null}

abbrev pub max_email_length : ℕ
max_email_length = 254

abbrev pub max_password_length : ℕ
max_password_length = 128

abbrev pub site_origin : String
site_origin = "http://kerumo.local"

abbrev pub allowed_return_paths : List String
allowed_return_paths =
    "/devices" ∷ "/organizations" ∷ "/alarms" ∷ "/notifications" ∷ "/ui-kit" ∷ "/connect"
    ∷ "/account" ∷ "/factory" ∷ "/operations" ∷ "/invite" ∷ []

-- NEXT_PUBLIC_PORTAL_MODE === "staff" is an argument.
abbrev pub default_destination : Bool → String
default_destination staff = if staff then "/operations" else "/devices"

-- url.pathname === prefix || url.pathname.startsWith(`${prefix}/`)
abbrev pub is_under : String → String → Bool
is_under pathname prefix = str_eq pathname prefix || starts_with pathname (String.◌++◌ prefix "/")

abbrev pub is_allowed_path : String → Bool
is_allowed_path pathname = any (is_under pathname) allowed_return_paths

-- !value || !value.startsWith("/") || value.startsWith("//") || value.includes("\\"), negated
abbrev pub is_path : String → Bool
is_path value =
    not (is_empty value)
    && starts_with value "/"
    && not (starts_with value "//")
    && not (any (λ c. c == 0x5c) (codes value))

abbrev pub route_of : Url → String
route_of url = String.◌++◌ url.pathname (String.◌++◌ url.search url.hash)

destination : Bool → Option Url → String
destination staff none = default_destination staff
destination staff (some url) =
    if not (str_eq url.origin site_origin) || str_eq url.pathname "/login"
    then default_destination staff
    else if is_allowed_path url.pathname
    then route_of url
    else default_destination staff

-- [^\s@]
abbrev address_char : Regex
address_char = class (
    (0, 8)
    ∷ (14, 31)
    ∷ (33, 63)
    ∷ (65, 0x9f)
    ∷ (0xa1, 0x167f)
    ∷ (0x1681, 0x1fff)
    ∷ (0x200b, 0x2027)
    ∷ (0x202a, 0x202e)
    ∷ (0x2030, 0x205e)
    ∷ (0x2060, 0x2fff)
    ∷ (0x3001, 0xfefe)
    ∷ (0xff00, 0x10ffff)
    ∷ [])

-- /^[^\s@]+@[^\s@]+\.[^\s@]+$/u
email_pattern : Regex
email_pattern =
    seq (plus address_char ∷ char b'@' ∷ plus address_char ∷ char b'.' ∷ plus address_char ∷ [])

hex_digit : Regex
hex_digit = class ((b'0', b'9') ∷ (b'a', b'f') ∷ [])

-- /^(?:kr-[0-9a-f]{32}-g[1-9][0-9]*|ku-[0-9a-f]{32})$/u
login_pattern : Regex
login_pattern =
    alt
      (seq (
        word "kr-" ∷ repeat 32 hex_digit ∷ word "-g" ∷ class ((b'1', b'9') ∷ []) ∷ star digit ∷ []))
      (seq (word "ku-" ∷ repeat 32 hex_digit ∷ []))

-- /^\d{6}$/u
otp_pattern : Regex
otp_pattern = repeat 6 digit

abbrev includes_at : String → Bool
includes_at s = any (λ c. c == b'@') (codes s)

pub data LoginFieldError : Type 0 where
  no_login : LoginFieldError
  wrong_login : LoginFieldError
  no_password : LoginFieldError
  long_password : LoginFieldError
  wrong_otp : LoginFieldError

pub record LoginFieldErrors : Type 0 where
  pub email : Option LoginFieldError
  pub password : Option LoginFieldError
  pub otp : Option LoginFieldError

pub record LoginFormValues : Type 0 where
  pub email : String
  pub password : String
  pub otp : Option String

email_error : String → Option LoginFieldError
email_error s =
    if is_empty s
    then some no_login
    else if leb (utf16_length s) max_email_length
        && (if includes_at s then test email_pattern s else test login_pattern s)
    then none
    else some wrong_login

password_error : String → Option LoginFieldError
password_error s =
    if is_empty s
    then some no_password
    else if leb (utf16_length s) max_password_length
    then none
    else some long_password

otp_error : Option String → Option LoginFieldError
otp_error none = none
otp_error (some s) = if is_empty s || test otp_pattern s then none else some wrong_otp

module _ ⦃h : Host⦄ where
  -- safeLoginReturnTo(value); null and undefined are none
  pub safe_login_return_to : Bool → Option String → String
  safe_login_return_to staff none = default_destination staff
  safe_login_return_to staff (some value) =
      if is_path value
      then destination staff (h.new_url value site_origin)
      else default_destination staff

  -- validateLoginForm(values)
  pub validate_login_form : LoginFormValues → String × LoginFieldErrors
  validate_login_form values =
      let normalized_email = h.lower (trim values.email) in
      (
        normalized_email,
        record {
          email = email_error normalized_email;
          password = password_error values.password;
          otp = otp_error values.otp;
        },
      )
