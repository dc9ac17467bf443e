-- ===== src/Auth/Session/Machine/Leaving.antt =====
-- What happens between a logout of frontend/src/features/auth-session.tsx and its answer.
use stechbaza_iot.Prelude.{
  Bool, Option, String, ap, false, inl, inr, none, refl, subst, sym, true, ℕ, ◌∙◌, ◌≡◌, ◌≢◌, ◌⊎◌,
}
use stechbaza_iot.Auth.Channel.{ClearedReason}
use stechbaza_iot.Auth.Session.Actions.{at_once, get_access_token, is_logout_failed}
use stechbaza_iot.Auth.Session.Machine.{Event, step}
use stechbaza_iot.Auth.Session.Machine.Consistent.{FitsIntent, IsConsistent}
use stechbaza_iot.Auth.Session.Machine.Cores.{Core, core, true-false}
use stechbaza_iot.Auth.Session.Machine.Lifecycle.{cause, step-Moves}
use stechbaza_iot.Auth.Session.Machine.Moves.{
  Cause, Moves, begins_login, begins_logout, degrades, fails_logout, goes_back, login_begins,
  login_ends, logout_ends, logs_in, restores, signed_out, signs_in, signs_out, stays, waits,
}
use stechbaza_iot.Auth.Session.State.{
  Session, Tab, anonymous, authenticated, logging_out, logout_failed, restoring, unavailable,
}
use stechbaza_iot.Host.{Host}
use stechbaza_iot.Prelude.Int.{ℤ}

-- The session is logging out, and the intent to do so stands.
pub record IsLeaving (c : Core) : Type 0 where
  pub now : ℤ
  pub email : Option String
  pub leaving : c.session ≡ logging_out now email
  pub intends : c.intent ≡ true

abbrev pub IsSignedOut : Core → Type 0
IsSignedOut c = (reason : Option ClearedReason) × (c ≡ signed_out reason)

failed-leaving :
    (s : Session) (now : ℤ) (email : Option String)
    → is_logout_failed s ≡ true
    → s ≡ logging_out now email
    → ⊥
failed-leaving s now email e l = true-false (sym e ∙ ap is_logout_failed l)

-- Neither a login, nor the answer of the logout
abbrev pub IsOther : Cause → Type 0
IsOther k = (k ≢ login_begins) × (k ≢ login_ends) × (k ≢ logout_ends)

Moves-IsLeaving :
    {c d : Core} {k : Cause} → Moves c k d → IsLeaving c → IsOther k → IsLeaving d ⊎ IsSignedOut d
Moves-IsLeaving stays l o = inl l
Moves-IsLeaving (signs_in a token behind quiet here) l o =
    absurd (true-false (sym l.intends ∙ quiet))
Moves-IsLeaving (signs_out reason ends) l o = inr (reason, refl)
Moves-IsLeaving (degrades a text behind quiet e) l o = absurd (true-false (sym l.intends ∙ quiet))
Moves-IsLeaving (waits text retry_at behind quiet) l o = absurd (true-false (sym l.intends ∙ quiet))
Moves-IsLeaving (begins_login e) l o = absurd (o.0 e)
Moves-IsLeaving (logs_in a token e) l o = absurd (o.1 e)
Moves-IsLeaving (begins_logout now email e) l o =
    inl (record { now = now; email = email; leaving = refl; intends = refl })
Moves-IsLeaving (fails_logout text retry_at email e) l o = absurd (o.2 e)
Moves-IsLeaving {c} (goes_back a token e here) l o =
    absurd (failed-leaving c.session l.now l.email here l.leaving)
Moves-IsLeaving {c} (restores now e here) l o =
    absurd (failed-leaving c.session l.now l.email here l.leaving)

-- What getAccessToken says while the intent stands
get_access_token-intent :
    (now : ℤ) (minimum : ℕ) (t : Tab)
    → t.logout_intent ≡ true
    → get_access_token now minimum t ≡ (at_once none, t)
unfolding get_access_token
get_access_token-intent now minimum t e = rw e refl

IsLeaving-of :
    (s : Session) (intent : Bool) (token : Option String)
    → FitsIntent s intent
    → intent ≡ true
    → IsLeaving (record { session = s; token = token; intent = intent })
IsLeaving-of (logging_out now email) true token f e = record {
  now = now;
  email = email;
  leaving = refl;
  intends = refl;
}
IsLeaving-of (logging_out now email) false token f e = absurd (true-false (sym e))
IsLeaving-of (restoring now) i token f e = absurd (subst (λ b. FitsIntent (restoring now) b) e f)
IsLeaving-of (anonymous r) i token f e = absurd (subst (λ b. FitsIntent (anonymous r) b) e f)
IsLeaving-of (authenticated a) i token f e =
    absurd (subst (λ b. FitsIntent (authenticated a) b) e f)
IsLeaving-of (unavailable m retry_at) i token f e =
    absurd (subst (λ b. FitsIntent (unavailable m retry_at) b) e f)
IsLeaving-of (logout_failed m retry_at email) i token f e =
    absurd (subst (λ b. FitsIntent (logout_failed m retry_at email) b) e f)

module _ ⦃h : Host⦄ (me nonce : String) where
  -- From the logout on, whatever the other tabs, the refresh and the timers do, the session either
  -- goes on logging out, and then no request is given a token, or it has ended with its token; only
  -- a login or the answer of the logout leads elsewhere.
  pub step-IsLeaving :
      (e : Event) (t : Tab) (now : ℤ) (minimum : ℕ)
      → IsConsistent (core t)
      → t.logout_intent ≡ true
      → IsOther (cause e)
      → let u = step me nonce e t in
        (IsLeaving (core u) × (get_access_token now minimum u ≡ (at_once none, u)))
        ⊎ IsSignedOut (core u)
  step-IsLeaving e t now minimum c i o =
      elim (Moves-IsLeaving (step-Moves me nonce e t)
        (IsLeaving-of t.session t.logout_intent t.access_token c.fits_intent i) o) [
          | inl l ↦ inl (l, get_access_token-intent now minimum (step me nonce e t) l.intends)
          | inr out ↦ inr out
        ]
