-- ===== src/Auth/Session/Machine/Shut.antt =====
-- A tab of frontend/src/features/auth-session.tsx after a logout: what its events do to it.
use stechbaza_iot.Prelude.{
  Bool, List, Option, String, ap, false, if-intro, refl, some, subst, sym, ◌≡◌,
}
use stechbaza_iot.Api.Errors.{Failure}
use stechbaza_iot.Auth.Channel.{
  AuthChannelMessage, ClearedReason, SessionSnapshot, expired, parse_auth_channel_message, revoked,
  session_cleared,
}
use stechbaza_iot.Auth.Logout.Window.{IsRecent}
use stechbaza_iot.Auth.Session.Changes.{
  TokenOptions, apply_peer_snapshot, apply_token_response, clear_session_internal, post_cleared,
  record_if_logout, schedule_retry, sign_out,
}
use stechbaza_iot.Auth.Session.Machine.{
  Event, asks_token, cancels_logout, clears, lock_granted_at, lock_refused_with, login_answers,
  login_starts, logout_answers, logs_out, mounts, peers_answered_at, receives, refresh_answers,
  refresh_asked, refresh_resumes, refresh_timer_fires, refresh_window_ends, request_ends,
  request_starts, retry_timer_fires, shows, start_resumes, startup_window_ends, storage_changes,
  unmounts,
}
use stechbaza_iot.Auth.Session.Machine.Marked.{
  IsShut, apply_peer_snapshot-marked, apply_token_response-marked, refresh_session-marked,
  request_peer_snapshot-marked,
}
use stechbaza_iot.Auth.Session.Refresh.{refresh_session, request_peer_snapshot}
use stechbaza_iot.Auth.Session.State.{
  Tab, TokenResponse, abort_authorized_requests, clear_retry_timer, commit_session, post_message,
  resolve_peer_waiters,
}
use stechbaza_iot.Host.{Host}
use stechbaza_iot.Prelude.Int.{ltb_ℤ, ℤ}

-- No message that ends a session, which may set another marker
abbrev pub IsNotCleared : Option AuthChannelMessage → Type 0
IsNotCleared (some (session_cleared source issued_at reason)) = ⊥
IsNotCleared m = Unit

-- The reasons of SessionInvalidationReason
abbrev pub IsInvalidation : ClearedReason → Type 0
IsInvalidation ClearedReason.logout = ⊥
IsInvalidation reason = Unit

-- An event within the time of the marker, no answer to a login or to another logout, no mounting and
-- no write of another tab
abbrev pub IsQuiet : ⦃h : Host⦄ → ℤ → Event → Type 0
IsQuiet at (mounts now channel) = ⊥
IsQuiet at (start_resumes now) = IsRecent at now
IsQuiet at startup_window_ends = Unit
IsQuiet at (receives now value) =
    IsRecent at now × IsNotCleared (parse_auth_channel_message value now)
IsQuiet at (refresh_asked now) = IsRecent at now
IsQuiet at (lock_granted_at now) = IsRecent at now
IsQuiet at (lock_refused_with failure) = Unit
IsQuiet at refresh_window_ends = Unit
IsQuiet at (peers_answered_at now) = IsRecent at now
IsQuiet at (refresh_answers now r) = IsRecent at now
IsQuiet at (refresh_resumes now) = IsRecent at now
IsQuiet at login_starts = Unit
IsQuiet at (login_answers now response name) = ⊥
IsQuiet at (logs_out now) = IsRecent at now
IsQuiet at (logout_answers now r) = ⊥
IsQuiet at (cancels_logout now) = IsRecent at now
IsQuiet at (clears now reason) = IsInvalidation reason
IsQuiet at (asks_token now minimum) = IsRecent at now
IsQuiet at (request_starts n) = Unit
IsQuiet at (request_ends n) = Unit
IsQuiet at (retry_timer_fires now) = IsRecent at now
IsQuiet at (refresh_timer_fires now) = IsRecent at now
IsQuiet at (shows now visible) = IsRecent at now
IsQuiet at unmounts = Unit
IsQuiet at (storage_changes s) = ⊥

module _ {at : ℤ} where
  pub moved : (t u : Tab) → u ≡ t → IsShut at t → IsShut at u
  moved t u e s = subst (λ v. IsShut at v) (sym e) s

  pub refresh_session-IsShut :
      (now : ℤ) (t : Tab) → IsRecent at now → IsShut at t → IsShut at (refresh_session now t).1
  refresh_session-IsShut now t r s =
      moved t (refresh_session now t).1 (ap (λ p. p.1) (refresh_session-marked now t s.marked r)) s

  pub apply_peer_snapshot-IsShut :
      (now : ℤ) (p : SessionSnapshot) (t : Tab)
      → IsRecent at now
      → IsShut at t
      → IsShut at (apply_peer_snapshot now p t).1
  apply_peer_snapshot-IsShut now p t r s =
      moved t (apply_peer_snapshot now p t).1
        (ap (λ q. q.1) (apply_peer_snapshot-marked now t s.marked r p)) s

  pub apply_token_response-IsShut :
      (me : String) (now : ℤ) (response : TokenResponse) (o : TokenOptions) (t : Tab)
      → o.force ≡ false
      → IsRecent at now
      → IsShut at t
      → IsShut at (apply_token_response me now response o t).1
  apply_token_response-IsShut me now response o t f r s =
      moved t (apply_token_response me now response o t).1
        (ap (λ q. q.1) (apply_token_response-marked now t s.marked r me response o f)) s

  pub request_peer_snapshot-IsShut :
      (me : String) (now : ℤ) (t : Tab)
      → IsRecent at now
      → IsShut at t
      → IsShut at (request_peer_snapshot me now t).1
  request_peer_snapshot-IsShut me now t r s =
      moved t (request_peer_snapshot me now t).1
        (ap (λ q. q.1) (request_peer_snapshot-marked now t s.marked r me)) s

  pub clear_session_internal-IsShut :
      (me nonce : String) (reason : ClearedReason) (broadcast : Bool) (issued_at : ℤ) (t : Tab)
      → IsInvalidation reason
      → IsShut at t
      → IsShut at (clear_session_internal me nonce (some reason) broadcast issued_at t)
  unfolding clear_session_internal post_cleared post_message sign_out record_if_logout
      commit_session resolve_peer_waiters abort_authorized_requests clear_retry_timer
  clear_session_internal-IsShut me nonce reason broadcast issued_at t i s =
      if-intro (λ u. IsShut at u) (ltb_ℤ issued_at t.last_event_at) (λ _. s)
        (λ _. if-intro (λ u. IsShut at u) broadcast (λ _. kept reason i) (λ _. kept reason i))
    where
      kept :
          (q : ClearedReason)
          → IsInvalidation q
          → {posted : List AuthChannelMessage}
          → IsShut at (record (sign_out nonce (some q) issued_at t) { posted = posted })
      kept expired i = record { marked = s.marked; no_token = refl; no_fallback = refl }
      kept revoked i = record { marked = s.marked; no_token = refl; no_fallback = refl }
      kept ClearedReason.logout i = absurd i

  pub schedule_retry-IsShut :
      (now : ℤ) (failure : Failure) (t : Tab)
      → IsShut at t
      → IsShut at (schedule_retry now failure t)
  unfolding schedule_retry commit_session
  schedule_retry-IsShut now failure t s =
      if-intro (λ u. IsShut at u) t.logout_intent (λ _. s)
        (λ _. record { marked = s.marked; no_token = s.no_token; no_fallback = s.no_fallback })
