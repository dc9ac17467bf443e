-- ===== src/Form/Login/Presentation.antt =====
-- What frontend/src/features/login-model.ts shows of a login that failed.
use stechbaza_iot.Prelude.{
  Bool, Option, arith, ◌||◌, false, if-intro, max, none, or_default, refl, some, sym, true, ℕ, ◌+◌,
  ◌↔◌, ◌∙◌, ◌≡◌, ◌≤◌,
}
use stechbaza_iot.Api.Errors.{
  ApiError, ErrorKind, api_error, forbidden, rate_limited, unauthorized, validation,
}
use stechbaza_iot.Form.Login.Failed.{
  LoginErrorPresentation, asks_otp, code_of, kind_presentation, limited_presentation,
  login_error_presentation, unauthorized_presentation,
}
use stechbaza_iot.Js.Value.{Value, is_text}

-- The backend has judged the password, or the attempt is to be typed again.
abbrev pub DropsPassword : ErrorKind → Value → Type 0
DropsPassword unauthorized code =
    (is_text code "mfa_required" ≡ false) × (is_text code "mfa_invalid" ≡ false)
DropsPassword forbidden code = Unit
DropsPassword validation code = Unit
DropsPassword rate_limited code = Unit
DropsPassword kind code = ⊥

-- The seconds to wait are those of the answer, one at least, where there were too many attempts.
abbrev pub Waits : ErrorKind → Option ℕ → ℕ → Type 0
Waits rate_limited none wait = wait ≡ 1
Waits rate_limited (some seconds) wait = (1 ≤ wait) × (seconds ≤ wait) × (wait ≤ seconds + 1)
Waits kind seconds wait = wait ≡ 0

true-false : true ≡ false → ⊥
true-false e = cc

neither : (a b : Bool) → (a ≡ false) × (b ≡ false) → (a || b) ≡ false
neither a b e = ground arith

both_false : (a b : Bool) → (a || b) ≡ false → (a ≡ false) × (b ≡ false)
both_false a b e = ground arith

unauthorized_presentation-clears :
    (code : Value)
    → ((unauthorized_presentation code).clear_password ≡ true) ↔ DropsPassword unauthorized code
unfolding unauthorized_presentation
unauthorized_presentation-clears c =
    if-intro
      (λ (p : LoginErrorPresentation). (p.clear_password ≡ true) ↔ DropsPassword unauthorized c)
      (asks_otp c)
      (λ asks. (
        λ e. absurd (true-false (sym e)),
        λ (e : DropsPassword unauthorized c). absurd (
            true-false (sym asks ∙ neither (is_text c "mfa_required") (is_text c "mfa_invalid") e)),
      ))
      (λ judged.
        (λ e. both_false (is_text c "mfa_required") (is_text c "mfa_invalid") judged, λ e. refl))

unauthorized_presentation-waits :
    (c : Value) → (unauthorized_presentation c).retry_after_seconds ≡ 0
unfolding unauthorized_presentation
unauthorized_presentation-waits c =
    if-intro (λ (p : LoginErrorPresentation). p.retry_after_seconds ≡ 0) (asks_otp c) (λ asks. refl)
      (λ judged. refl)

limited_wait : (o : Option ℕ) → Waits rate_limited o (max 1 (or_default o 1))
limited_wait none = omega arith
limited_wait (some seconds) = omega arith

kind_presentation-clears :
    (k : ErrorKind) (e : ApiError)
    → ((kind_presentation k e).clear_password ≡ true) ↔ DropsPassword k (code_of e.details)
unfolding kind_presentation unauthorized_presentation limited_presentation
kind_presentation-clears unauthorized e = unauthorized_presentation-clears (code_of e.details)
kind_presentation-clears k e = ground arith

kind_presentation-Waits :
    (k : ErrorKind) (e : ApiError)
    → Waits k e.retry_after_seconds (kind_presentation k e).retry_after_seconds
unfolding kind_presentation unauthorized_presentation limited_presentation
kind_presentation-Waits unauthorized e = unauthorized_presentation-waits (code_of e.details)
kind_presentation-Waits rate_limited e = limited_wait e.retry_after_seconds
kind_presentation-Waits k e = refl

-- A login that failed clears the password exactly if the backend refused it with no code to ask for,
-- or answered 403, 422 or 429; and the form waits exactly after a 429, for a second at least and for
-- all of Retry-After.
pub login_error_presentation_correct :
    (e : ApiError)
    → let shown = login_error_presentation (api_error e) in
      ((shown.clear_password ≡ true) ↔ DropsPassword e.kind (code_of e.details))
      × Waits e.kind e.retry_after_seconds shown.retry_after_seconds
unfolding login_error_presentation
login_error_presentation_correct e =
    (kind_presentation-clears e.kind e, kind_presentation-Waits e.kind e)
