-- ===== src/Auth/Session/Machine/Consistent.antt =====
-- How the session, the token and the intent of frontend/src/features/auth-session.tsx fit together.
use stechbaza_iot.Prelude.{
  Bool, List, Option, String, [], false, none, refl, some, subst, true, ◌∷◌, ◌≡◌,
}
use stechbaza_iot.Auth.Logout.{Storage}
use stechbaza_iot.Auth.Session.Machine.{Event, new_tab, run}
use stechbaza_iot.Auth.Session.Machine.Cores.{Core, core, true-false}
use stechbaza_iot.Auth.Session.Machine.Lifecycle.{step-Moves}
use stechbaza_iot.Auth.Session.Machine.Moves.{
  Cause, Moves, begins_login, begins_logout, degrades, fails_logout, goes_back, logs_in, restores,
  signs_in, signs_out, stays, waits,
}
use stechbaza_iot.Auth.Session.State.{
  Authenticated, Session, Tab, anonymous, authenticated, logging_out, logout_failed, restoring,
  unavailable,
}
use stechbaza_iot.Host.{Host}
use stechbaza_iot.Prelude.Int.{ℤ}

-- A session that is shown has a token; an anonymous one has none.
abbrev pub FitsToken : Session → Option String → Type 0
FitsToken (authenticated a) none = ⊥
FitsToken (anonymous reason) (some token) = ⊥
FitsToken s token = Unit

-- With the intent to log out the session is logging out.
abbrev pub FitsIntent : Session → Bool → Type 0
FitsIntent (logging_out now email) true = Unit
FitsIntent s false = Unit
FitsIntent s true = ⊥

pub record IsConsistent (c : Core) : Type 0 where
  pub fits_token : FitsToken c.session c.token
  pub fits_intent : FitsIntent c.session c.intent

FitsToken-authenticated :
    (a b : Authenticated) (s : Session) (token : Option String)
    → s ≡ authenticated a
    → FitsToken s token
    → FitsToken (authenticated b) token
FitsToken-authenticated a b s (some token) e f = tt
FitsToken-authenticated a b s none e f = subst (λ r. FitsToken r none) e f

FitsIntent-quiet : (s : Session) (intent : Bool) → intent ≡ false → FitsIntent s intent
FitsIntent-quiet s true e = absurd (true-false e)
FitsIntent-quiet (restoring now) false e = tt
FitsIntent-quiet (anonymous r) false e = tt
FitsIntent-quiet (authenticated a) false e = tt
FitsIntent-quiet (unavailable m retry_at) false e = tt
FitsIntent-quiet (logging_out now email) false e = tt
FitsIntent-quiet (logout_failed m retry_at email) false e = tt

pub Moves-IsConsistent : {c d : Core} {k : Cause} → Moves c k d → IsConsistent c → IsConsistent d
Moves-IsConsistent stays h = h
Moves-IsConsistent (signs_in a token behind quiet here) h = record {
  fits_token = tt;
  fits_intent = tt;
}
Moves-IsConsistent (signs_out reason ends) h = record { fits_token = tt; fits_intent = tt }
Moves-IsConsistent {c} (degrades a text behind quiet e) h = record {
  fits_token =
      FitsToken-authenticated a (record a { refresh_message = some text }) c.session c.token e
        h.fits_token;
  fits_intent =
      FitsIntent-quiet (authenticated (record a { refresh_message = some text })) c.intent quiet;
}
Moves-IsConsistent {c} (waits text retry_at behind quiet) h = record {
  fits_token = tt;
  fits_intent = FitsIntent-quiet (unavailable text retry_at) c.intent quiet;
}
Moves-IsConsistent {c} (begins_login e) h = record {
  fits_token = h.fits_token;
  fits_intent = FitsIntent-quiet c.session false refl;
}
Moves-IsConsistent (logs_in a token e) h = record { fits_token = tt; fits_intent = tt }
Moves-IsConsistent (begins_logout now email e) h = record { fits_token = tt; fits_intent = tt }
Moves-IsConsistent (fails_logout text retry_at email e) h = record {
  fits_token = tt;
  fits_intent = tt;
}
Moves-IsConsistent (goes_back a token e here) h = record { fits_token = tt; fits_intent = tt }
Moves-IsConsistent (restores now e here) h = record { fits_token = tt; fits_intent = tt }

new_tab-IsConsistent : (now : ℤ) (s : Storage) → IsConsistent (core (new_tab now s))
unfolding new_tab
new_tab-IsConsistent now s = record { fits_token = tt; fits_intent = tt }

module _ ⦃h : Host⦄ (me nonce : String) where
  pub run-IsConsistent :
      (es : List Event) (t : Tab) → IsConsistent (core t) → IsConsistent (core (run me nonce es t))
  unfolding run
  run-IsConsistent [] t c = c
  run-IsConsistent (e ∷ es) t c =
      run-IsConsistent es _ (Moves-IsConsistent (step-Moves me nonce e t) c)

  -- After any events in any order, an authenticated session has a token, an anonymous session has
  -- none, and while the intent to log out stands the session is the one that is logging out.
  pub session-IsConsistent :
      (es : List Event) (now : ℤ) (s : Storage)
      → IsConsistent (core (run me nonce es (new_tab now s)))
  session-IsConsistent es now s = run-IsConsistent es _ (new_tab-IsConsistent now s)
