-- ===== src/Form/Login/Failed.antt =====
-- frontend/src/features/login-model.ts: what the form shows of a login that failed.
use stechbaza_iot.Prelude.{
  Bool, Option, String, code, false, if◌then◌else◌, max, none, or_default, some, true, ℕ, ◌==◌,
  ◌||◌,
}
use stechbaza_iot.Api.Errors.{
  ApiError, ErrorKind, Failure, aborted, api_error, error, forbidden, invalid_response,
  rate_limited, server, unauthorized, validation,
}
use stechbaza_iot.Api.Errors.Message.{api_error_display_message, is_object, reflect_get}
use stechbaza_iot.Js.Value.{Value, is_text, null}

-- A text, or the one that names the seconds to wait.
pub data LoginSummary : Type 0 where
  plain : String → LoginSummary
  retry_in : ℕ → LoginSummary

pub data Tone : Type 0 where
  info : Tone
  danger : Tone

pub record LoginErrorPresentation : Type 0 where
  pub summary : LoginSummary
  pub password_text : Option String
  pub otp_text : Option String
  pub retry_after_seconds : ℕ
  pub clear_password : Bool
  pub tone : Option Tone

abbrev shown : String → Bool → LoginErrorPresentation
shown text clear = record {
  summary = plain text;
  password_text = none;
  otp_text = none;
  retry_after_seconds = 0;
  clear_password = clear;
  tone = none;
}

-- error.details.detail.code, where they are objects
unfoldable pub code_of : Value → Value
code_of details =
    let detail = if is_object details then reflect_get details "detail" else null in
    if is_object detail then reflect_get detail "code" else null

-- code === "mfa_required" || code === "mfa_invalid"
abbrev pub asks_otp : Value → Bool
asks_otp code = is_text code "mfa_required" || is_text code "mfa_invalid"

unfoldable pub unauthorized_presentation : Value → LoginErrorPresentation
unauthorized_presentation code =
    if asks_otp code
    then record (shown
        (if is_text code "mfa_required"
          then "Для цього облікового запису ввімкнено двоетапний вхід. Введіть код із застосунку."
          else "Код із застосунку не прийнято. Дочекайтеся нового коду й повторіть вхід.")
        false) {
          otp_text = some "Введіть свіжий шестизначний код із застосунку.";
          tone = some (if is_text code "mfa_required" then info else danger);
        }
    else record (shown "Невірний логін або пароль." true) {
      password_text = some "Перевірте пароль і повторіть спробу.";
    }

unfoldable pub limited_presentation : ℕ → LoginErrorPresentation
limited_presentation seconds = record (shown "" true) {
  summary = retry_in seconds;
  retry_after_seconds = seconds;
}

unfoldable pub is_status_503 : Option ℕ → Bool
is_status_503 none = false
is_status_503 (some status) = status == 503

unfoldable pub kind_presentation : ErrorKind → ApiError → LoginErrorPresentation
kind_presentation unauthorized e = unauthorized_presentation (code_of e.details)
kind_presentation forbidden e =
    shown "Вхід недоступний. Перевірте адресу сайту або зверніться до адміністратора." true
kind_presentation validation e =
    shown "Перевірте логін, пароль і код із застосунку, якщо він потрібен." true
kind_presentation rate_limited e = limited_presentation (max 1 (or_default e.retry_after_seconds 1))
kind_presentation server e =
    shown
      (if is_status_503 e.status
        then "Вхід тимчасово недоступний. Спробуйте пізніше."
        else "Не вдалося увійти. Спробуйте пізніше.")
      false
kind_presentation invalid_response e = shown "Не вдалося підтвердити вхід. Спробуйте ще раз." false
kind_presentation aborted e = shown "" false
kind_presentation kind e = shown (api_error_display_message (api_error e)) false

-- loginErrorPresentation(error)
unfoldable pub login_error_presentation : Failure → LoginErrorPresentation
login_error_presentation (error message) = shown "Не вдалося увійти. Спробуйте ще раз." false
login_error_presentation (api_error e) = kind_presentation e.kind e
