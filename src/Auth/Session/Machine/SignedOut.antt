-- ===== src/Auth/Session/Machine/SignedOut.antt =====
-- What a tab of frontend/src/features/auth-session.tsx does after a logout that went well.
use stechbaza_iot.Prelude.{
  Bool, Each, List, Option, String, arith, false, if-intro, inl, inr, none, refl, some, subst, sym,
  true, ◌∙◌, ◌≡◌,
}
use stechbaza_iot.Api.Errors.{ok}
use stechbaza_iot.Auth.Channel.{read_string}
use stechbaza_iot.Auth.Logout.{Storage, record_logout_marker}
use stechbaza_iot.Auth.Logout.Window.{
  HasStorage, IsOutside, IsRecent, IsSafe, read_recent_logout_marker-record,
}
use stechbaza_iot.Auth.Session.Actions.{end_logout, logout_answered, logout_result}
use stechbaza_iot.Auth.Session.Changes.{
  clear_session_internal, post_cleared, record_if_logout, sign_out,
}
use stechbaza_iot.Auth.Session.Machine.{Event, logout_answers, run, step}
use stechbaza_iot.Auth.Session.Machine.Consistent.{
  FitsToken, IsConsistent, Moves-IsConsistent, run-IsConsistent,
}
use stechbaza_iot.Auth.Session.Machine.Cores.{core, true-false}
use stechbaza_iot.Auth.Session.Machine.Lifecycle.{step-Moves}
use stechbaza_iot.Auth.Session.Machine.Marked.{IsShut, Marks}
use stechbaza_iot.Auth.Session.Machine.Quiet.{run-IsShut}
use stechbaza_iot.Auth.Session.Machine.Shut.{IsQuiet}
use stechbaza_iot.Auth.Session.State.{
  Session, Tab, abort_authorized_requests, anonymous, authenticated, authenticated?,
  clear_retry_timer, commit_session, logging_out, logout_failed, post_message, resolve_peer_waiters,
  restoring, unavailable,
}
use stechbaza_iot.Host.{Host}
use stechbaza_iot.Js.Value.{str}
use stechbaza_iot.Prelude.Int.{ltb_ℤ, pos, ℤ, ◌+ℤ◌}

IsRecent-IsOutside : (at now : ℤ) → IsRecent at now → IsOutside at now → ⊥
IsRecent-IsOutside at now r (inl o) = omega arith
IsRecent-IsOutside at now r (inr o) = omega arith

record_logout_marker-Marks :
    (s : Storage) (at : ℤ) (nonce : String)
    → HasStorage s
    → IsSafe at
    → IsSafe (at +ℤ pos 300000)
    → read_string (str nonce) 128 ≡ some nonce
    → Marks at (record_logout_marker at nonce s)
record_logout_marker-Marks s at nonce storage safe safe_end e now r =
    elim (read_recent_logout_marker-record s at now nonce storage safe safe_end e) [
      | inl (recent, seen) ↦ seen
      | inr (over, unseen) ↦ absurd (IsRecent-IsOutside at now r over)
    ]

authenticated?-none :
    (s : Session) (token : Option String)
    → FitsToken s token
    → token ≡ none
    → authenticated? s ≡ none
authenticated?-none (authenticated a) token f e = absurd (subst (FitsToken (authenticated a)) e f)
authenticated?-none (restoring now) token f e = refl
authenticated?-none (anonymous r) token f e = refl
authenticated?-none (unavailable m retry_at) token f e = refl
authenticated?-none (logging_out now email) token f e = refl
authenticated?-none (logout_failed m retry_at email) token f e = refl

module _ ⦃h : Host⦄ (me nonce : String) where
  logout_answered-IsShut :
      (at : ℤ) (t : Tab)
      → t.is_logout_running ≡ true
      → ltb_ℤ at t.last_event_at ≡ false
      → HasStorage t.storage
      → IsSafe at
      → IsSafe (at +ℤ pos 300000)
      → read_string (str nonce) 128 ≡ some nonce
      → IsShut at (step me nonce (logout_answers at (ok tt)) t)
  unfolding step logout_answered logout_result end_logout clear_session_internal post_cleared
      post_message sign_out record_if_logout commit_session resolve_peer_waiters
      abort_authorized_requests clear_retry_timer
  logout_answered-IsShut at t runs late storage safe safe_end e =
      if-intro (λ (p : Bool × Tab). IsShut at p.1) t.is_logout_running
        (λ _.
          if-intro (λ u. IsShut at (record u { is_logout_running = false }))
            (ltb_ℤ at t.last_event_at) (λ early. absurd (true-false (sym early ∙ late)))
            (λ _. record {
              marked = record_logout_marker-Marks t.storage at nonce storage safe safe_end e;
              no_token = refl;
              no_fallback = refl;
            }))
        (λ stopped. absurd (true-false (sym runs ∙ stopped)))

  -- A logout that the backend has confirmed, where nothing in the tab is later, ends the
  -- session: for the five minutes of its marker there is no token and no session in the tab,
  -- whatever refreshes answer, other tabs send and timers fire, with no login and no further
  -- logout answered, no message that a session ended, no new mounting and no write of another
  -- tab to localStorage. The tab is consistent, its storage works, the times of the logout and
  -- of the end of its marker are safe integers, and the nonce is one that the marker may hold.
  pub logout_shuts :
      (es : List Event) (at : ℤ) (t : Tab)
      → t.is_logout_running ≡ true
      → ltb_ℤ at t.last_event_at ≡ false
      → IsConsistent (core t)
      → HasStorage t.storage
      → IsSafe at
      → IsSafe (at +ℤ pos 300000)
      → read_string (str nonce) 128 ≡ some nonce
      → Each (IsQuiet at) es
      → let u = run me nonce es (step me nonce (logout_answers at (ok tt)) t) in
        (u.access_token ≡ none) × (authenticated? u.session ≡ none)
  logout_shuts es at t runs late c storage safe safe_end e quiet =
      let first = step me nonce (logout_answers at (ok tt)) t in
      let shut =
        run-IsShut me nonce es first quiet
          (logout_answered-IsShut at t runs late storage safe safe_end e) in
      let fits =
        run-IsConsistent me nonce es first
          (Moves-IsConsistent (step-Moves me nonce (logout_answers at (ok tt)) t) c) in
      (
        shut.no_token,
        authenticated?-none (run me nonce es first).session (run me nonce es first).access_token
            fits.fits_token shut.no_token,
      )
