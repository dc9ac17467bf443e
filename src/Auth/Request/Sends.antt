-- ===== src/Auth/Request/Sends.antt =====
-- Which requests authorizedApiRequest of frontend/src/features/auth-session-runtime.ts sends.
use stechbaza_iot.Prelude.{
  &&-eq-true, Bool, Bool-cases, List, Option, String, [], ap, arith, false, if-intro, inl, inr,
  none, not, refl, some, subst, sym, true, ◌&&◌, ◌++◌, ◌||◌, ◌∙◌, ◌∷◌, ◌≡◌,
}
use stechbaza_iot.Api.Errors.{Failure, Result, err, ok}
use stechbaza_iot.Auth.Request.{
  Answers, Effect, RequestOptions, Run, answer_of, attempt, authorized_api_request,
  deleted_controller, is_unauthorized, may_retry, resend, retry_with, send_with, sent, text_of,
  with_token,
}
use stechbaza_iot.Js.Text.{is_empty}
use stechbaza_iot.Js.Value.{Value}

-- The tokens that requests go out with, in order.
abbrev pub tokens_sent : List Effect → List String
tokens_sent [] = []
tokens_sent (sent token ∷ rest) = token ∷ tokens_sent rest
tokens_sent (x ∷ rest) = tokens_sent rest

-- The request may go out with the token: the session gave it, and nothing had ended before.
pub record IsAllowed (a : Answers) (token : String) : Type 0 where
  pub given : a.access_token ≡ ok (some token)
  pub not_empty : is_empty token ≡ false
  pub started : a.logout_at_start ≡ false
  pub not_aborted : a.aborted_with_token ≡ false
  pub not_logged_out : a.logout_with_token ≡ false

-- It may go out once more, with a token of a refresh.
pub record IsRetryable (o : RequestOptions) (a : Answers) (token replacement : String)
    : Type 0 where
  pub failure : Failure
  pub refused : a.first token ≡ err failure
  pub unauthorized : is_unauthorized failure ≡ true
  pub retries : may_retry o ≡ true
  pub not_aborted : a.aborted_after_failure ≡ false
  pub not_logged_out : a.logout_after_failure ≡ false
  pub renewed : a.refreshed ≡ ok true
  pub given : a.replacement_token ≡ some replacement
  pub not_empty : is_empty replacement ≡ false
  pub still_in : a.logout_after_refresh ≡ false

abbrev pub AreAllowed : RequestOptions → Answers → List String → Type 0
AreAllowed o a [] = Unit
AreAllowed o a (token ∷ []) = IsAllowed a token
AreAllowed o a (token ∷ replacement ∷ []) = IsAllowed a token × IsRetryable o a token replacement
AreAllowed o a (token ∷ replacement ∷ x ∷ rest) = ⊥

tokens_sent-last : (l : List Effect) → tokens_sent (l ++ (deleted_controller ∷ [])) ≡ tokens_sent l
tokens_sent-last [] = refl
tokens_sent-last (sent token ∷ rest) = ap (λ r. token ∷ r) (tokens_sent-last rest)
tokens_sent-last (x ∷ rest) = tokens_sent-last rest

text_of-some :
    (t : Option String) (s : String) → text_of t ≡ some s → (t ≡ some s) × (is_empty s ≡ false)
text_of-some none s e = cc
text_of-some (some t) s e = elim (Bool-cases (is_empty t)) [
  | inl bare ↦ ground arith
  | inr full ↦
      let same : t ≡ s = ground arith in (ap some same, subst (λ u. is_empty u ≡ false) same full)
]

module _ (o : RequestOptions) (a : Answers) (token : String) (allowed : IsAllowed a token) where
  -- What a part of the run sends after the first request.
  abbrev Follows : Run → Type 0
  Follows run = AreAllowed o a (token ∷ tokens_sent run.0)

  module _ (failure : Failure) (refused : a.first token ≡ err failure)
      (bad_token : is_unauthorized failure ≡ true) (retries : may_retry o ≡ true)
      (not_aborted : a.aborted_after_failure ≡ false)
      (not_logged_out : a.logout_after_failure ≡ false) where
    resend-Follows :
        a.refreshed ≡ ok true
        → (r : Option String) → text_of a.replacement_token ≡ r
        → Follows (resend a failure r)
    unfolding resend
    resend-Follows renewed none e = allowed
    resend-Follows renewed (some u) e =
        if-intro Follows a.logout_after_refresh (λ out. allowed)
          (λ still.
            let (given, full) = text_of-some a.replacement_token u e in
            (
              allowed,
              record {
                failure = failure;
                refused = refused;
                unauthorized = bad_token;
                retries = retries;
                not_aborted = not_aborted;
                not_logged_out = not_logged_out;
                renewed = renewed;
                given = given;
                not_empty = full;
                still_in = still;
              },
            ))

    retry_with-Follows : (r : Result Bool) → a.refreshed ≡ r → Follows (retry_with a failure r)
    unfolding retry_with
    retry_with-Follows (err e) h = allowed
    retry_with-Follows (ok false) h = allowed
    retry_with-Follows (ok true) h = resend-Follows h (text_of a.replacement_token) refl

  answer_of-Follows : (r : Result Value) → a.first token ≡ r → Follows (answer_of o a r)
  unfolding answer_of
  answer_of-Follows (ok v) h = allowed
  answer_of-Follows (err e) h =
      if-intro Follows
        (may_retry o
          && is_unauthorized e
          && not a.aborted_after_failure
          && not a.logout_after_failure)
        (λ all.
          let (begins, in_session) =
            &&-eq-true {a = may_retry o && is_unauthorized e && not a.aborted_after_failure}
              {b = not a.logout_after_failure} all in
          let (begins, live) =
            &&-eq-true {a = may_retry o && is_unauthorized e} {b = not a.aborted_after_failure}
              begins in
          let (retries, bad) = &&-eq-true {a = may_retry o} {b = is_unauthorized e} begins in
          retry_with-Follows e h bad retries (ground arith) (ground arith) a.refreshed refl)
        (λ some_not. allowed)

module _ (o : RequestOptions) (a : Answers) where
  abbrev Allowed : Run → Type 0
  Allowed run = AreAllowed o a (tokens_sent run.0)

  module _ (started : a.logout_at_start ≡ false) where
    send_with-Allowed :
        (t : Option String)
        → a.access_token ≡ ok t
        → a.aborted_with_token ≡ false
        → a.logout_with_token ≡ false
        → (s : Option String) → text_of t ≡ s
        → Allowed (send_with o a s)
    unfolding send_with
    send_with-Allowed t given live in_session none e = tt
    send_with-Allowed t given live in_session (some s) e =
        let (same, full) = text_of-some t s e in
        answer_of-Follows o a s
          (record {
            given = given ∙ ap ok same;
            not_empty = full;
            started = started;
            not_aborted = live;
            not_logged_out = in_session;
          })
          (a.first s) refl

    with_token-Allowed :
        (r : Result (Option String)) → a.access_token ≡ r → Allowed (with_token o a r)
    unfolding with_token
    with_token-Allowed (err e) h = tt
    with_token-Allowed (ok t) h =
        if-intro Allowed (a.aborted_with_token || a.logout_with_token) (λ stop. tt)
          (λ go. send_with-Allowed t h (ground arith) (ground arith) (text_of t) refl)

  attempt-Allowed : Allowed (attempt o a)
  unfolding attempt
  attempt-Allowed =
      if-intro Allowed a.logout_at_start (λ out. tt)
        (λ started. with_token-Allowed started a.access_token refl)

  -- A request goes out with a token that the session gave, where neither its signal was aborted nor
  -- a logout asked for before; it goes out a second time, with the token of a refresh, only where
  -- the first was refused as unauthorized, the options allow it and still nothing had ended; and it
  -- never goes out a third time.
  pub authorized_api_request-AreAllowed :
      AreAllowed o a (tokens_sent (authorized_api_request o a).0)
  unfolding authorized_api_request
  authorized_api_request-AreAllowed =
      subst (λ l. AreAllowed o a l) (sym (tokens_sent-last (attempt o a).0)) attempt-Allowed
