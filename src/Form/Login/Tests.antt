-- ===== src/Form/Login/Tests.antt =====
-- Logins of frontend/src/features/login-model.ts.
use stechbaza_iot.Prelude.{false, none, refl, some, true, ◌↔◌, ◌≡◌, ◌⊎◌}
use stechbaza_iot.Api.Errors.{ApiError, api_error, rate_limited}
use stechbaza_iot.Form.Login.{
  destination, email_error, email_pattern, no_password, otp_error, otp_pattern, password_error,
  safe_login_return_to, validate_login_form, wrong_login, wrong_otp,
}
use stechbaza_iot.Form.Login.Destination.{LeadsTo, safe_login_return_to-LeadsTo}
use stechbaza_iot.Form.Login.Failed.{code_of, login_error_presentation}
use stechbaza_iot.Form.Login.Presentation.{DropsPassword, Waits, login_error_presentation_correct}
use stechbaza_iot.Host.{Host}
use stechbaza_iot.Host.Sample.{sample}
use stechbaza_iot.Js.Regex.{test}
use stechbaza_iot.Js.Text.{trim, utf16_length}
use stechbaza_iot.Js.Value.{null}

abbrev limited : ApiError
limited = record {
  message = "429";
  kind = rate_limited;
  status = some 429;
  method = "POST";
  url = "/api/v1/auth/login";
  retry_after_seconds = some 30;
  request_id = none;
  details = null;
}

login_error_presentation_correct_example :
    ((login_error_presentation (api_error limited)).clear_password ≡ true
      ↔ DropsPassword rate_limited (code_of null))
    × Waits rate_limited
        (some 30)
        (login_error_presentation (api_error limited)).retry_after_seconds
login_error_presentation_correct_example = login_error_presentation_correct limited

-- A host that is the site itself.
abbrev site : Host
site = record sample {
  new_url = λ path base. some (record {
    href = path;
    origin = base;
    protocol = "http:";
    username = "";
    password = "";
    pathname = path;
    search = "";
    hash = "";
  });
}

kept : safe_login_return_to ⦃h = site⦄ false (some "/devices/7") ≡ "/devices/7"
unfolding safe_login_return_to destination
kept = refl

dropped : safe_login_return_to ⦃h = site⦄ false (some "//evil.example") ≡ "/devices"
unfolding safe_login_return_to destination
dropped = refl

safe_login_return_to-LeadsTo_example :
    (safe_login_return_to ⦃h = site⦄ false (some "/devices/7") ≡ "/devices")
    ⊎ LeadsTo ⦃h = site⦄ false "/devices/7"
        (safe_login_return_to ⦃h = site⦄ false (some "/devices/7"))
safe_login_return_to-LeadsTo_example = safe_login_return_to-LeadsTo ⦃h = site⦄ false "/devices/7"

digits_only : otp_error (some "12345a") ≡ some wrong_otp
unfolding otp_error test otp_pattern
digits_only = refl

-- Spaces around the login are cut; an address with no domain, an empty password and a short code
-- are refused.
checked_forms :
    (validate_login_form (record { email = " a@b.ua "; password = "p"; otp = none })
      ≡ ("a@b.ua", record { email = none; password = none; otp = none }))
    × (validate_login_form (record { email = "a@b"; password = ""; otp = some "12345" }) ≡ (
      "a@b",
      record { email = some wrong_login; password = some no_password; otp = some wrong_otp },
    ))
unfolding validate_login_form trim utf16_length email_error password_error otp_error test
    email_pattern otp_pattern
checked_forms = (refl, refl)
