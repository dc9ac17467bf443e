-- ===== src/Auth/Session/Machine/Lifecycle.antt =====
-- The life of a session of frontend/src/features/auth-session.tsx: which events may move it, and how.
use stechbaza_iot.Prelude.{
  Bool, String, if-intro, inl, inr, none, refl, some, subst, sym, true, ℕ, ◌&&◌, ◌≡◌,
}
use stechbaza_iot.Api.Errors.{Result, err, ok}
use stechbaza_iot.Auth.Channel.{ClearedReason, parse_auth_channel_message}
use stechbaza_iot.Auth.Session.Actions.{
  begin_logout, cancel_logout, catch_logout, clear_session, end_logout, get_access_token,
  is_logged_out, is_logout_failed, login_answered, login_options, login_started, logout,
  logout_answered, logout_result, message_received,
}
use stechbaza_iot.Auth.Session.Startup.{
  became_visible, mounted, refresh_timer_fired, retry_timer_fired, start_resumed, unmounted,
}
use stechbaza_iot.Auth.Session.Changes.{token_session}
use stechbaza_iot.Auth.Session.Machine.{
  Event, asks_token, cancels_logout, clears, lock_granted_at, lock_refused_with, login_answers,
  login_starts, logout_answers, logs_out, mounts, peers_answered_at, receives, refresh_answers,
  refresh_asked, refresh_resumes, refresh_timer_fires, refresh_window_ends, request_ends,
  request_starts, retry_timer_fires, shows, start_resumes, startup_window_ends, step,
  storage_changes, unmounts,
}
use stechbaza_iot.Auth.Session.Machine.Cores.{core, core-apply_token_response-force}
use stechbaza_iot.Auth.Session.Machine.RefreshCores.{
  core-became_visible, core-get_access_token, core-lock_refused, core-peers_answered,
}
use stechbaza_iot.Auth.Session.Machine.Moves.{
  Cause, Moves, background, begins_login, begins_logout, clear_session_internal-Moves, fails_logout,
  login_begins, login_ends, logout_begins, logout_cancelled, logout_ends, logs_in, same, stays,
}
use stechbaza_iot.Auth.Session.Refresh.{
  lock_refused, peers_answered, refresh_answered, refresh_resumed, refresh_session,
}
use stechbaza_iot.Auth.Session.State.{
  Tab, TokenResponse, abort_authorized_requests, clear_retry_timer, commit_session,
  resolve_peer_waiters,
}
use stechbaza_iot.Host.{Host}
use stechbaza_iot.Prelude.Int.{ℤ}
use stechbaza_iot.Auth.Session.Machine.Restoring.{
  finish_refresh-Moves, after_fetch-Moves, refresh_session-Moves, parsed_message-Moves,
  start_with-Moves, continue_start-Moves, lock_granted-Moves, restore-Moves,
}

module _ (k : Cause) where
  logout_result-Moves :
      (me nonce : String) (now : ℤ) (r : Result (Unit {0})) (t : Tab)
      → k ≡ logout_ends
      → Moves (core t) k (core (logout_result me nonce now r t).1)
  unfolding logout_result catch_logout commit_session
  logout_result-Moves me nonce now (ok u) t e =
      clear_session_internal-Moves k me nonce (some ClearedReason.logout) true now t (inr e)
  logout_result-Moves me nonce now (err failure) t e =
      if-intro (λ (p : Bool × Tab). Moves (core t) k (core p.1)) (is_logged_out t.session)
        (λ _. stays) (λ _. fails_logout _ _ _ e)

  logout_answered-Moves :
      (me nonce : String) (now : ℤ) (r : Result (Unit {0})) (t : Tab)
      → k ≡ logout_ends
      → Moves (core t) k (core (logout_answered me nonce now r t).1)
  unfolding logout_answered end_logout
  logout_answered-Moves me nonce now r t e =
      if-intro (λ (p : Bool × Tab). Moves (core t) k (core p.1)) t.is_logout_running
        (λ _. logout_result-Moves me nonce now r t e) (λ _. stays)

  logout-Moves : (now : ℤ) (t : Tab) → k ≡ logout_begins → Moves (core t) k (core (logout now t))
  unfolding logout begin_logout commit_session resolve_peer_waiters abort_authorized_requests
      clear_retry_timer
  logout-Moves now t e =
      if-intro (λ u. Moves (core t) k (core u)) t.is_logout_running (λ _. stays)
        (λ _. begins_logout now _ e)

  get_access_token-Moves :
      (now : ℤ) (minimum : ℕ) (t : Tab) → Moves (core t) k (core (get_access_token now minimum t).1)
  get_access_token-Moves now minimum t =
      same k t (get_access_token now minimum t).1 (core-get_access_token now minimum t)

-- What an event may move a session for.
unfoldable pub cause : Event → Cause
cause login_starts = login_begins
cause (login_answers now response name) = login_ends
cause (logs_out now) = logout_begins
cause (logout_answers now r) = logout_ends
cause (cancels_logout now) = logout_cancelled
cause e = background

login_answered-Moves :
    ⦃h : Host⦄ (me : String) (now : ℤ) (r : TokenResponse) (name : String) (t : Tab)
    → Moves (core t) login_ends (core (login_answered me now r name t))
unfolding login_answered
login_answered-Moves me now r name t =
    subst (λ c. Moves (core t) login_ends c)
      (sym (core-apply_token_response-force me now r (login_options now name) t refl))
      (logs_in (token_session now r (login_options now name) t.session) r.access_token refl)

retry_timer_fired-Moves :
    (now : ℤ) (t : Tab) → Moves (core t) background (core (retry_timer_fired now t))
unfolding retry_timer_fired clear_retry_timer
retry_timer_fired-Moves now t =
    elim t.retry_timer
      as (λ d.
        Moves (core t) background (
          core
            (elim d [ none ↦ t | some delay ↦ (refresh_session now (clear_retry_timer t)).1 ]))) [
              | none ↦ stays
              | some delay ↦ refresh_session-Moves background now (clear_retry_timer t)
            ]

module _ ⦃h : Host⦄ (me nonce : String) where
  -- Every event moves the session as its cause may. A session begins only by a login, by
  -- cancelling a logout that failed, or in the background with no intent to log out and no
  -- logout under way or failed. The intent is raised by a logout alone, and dropped by a
  -- login, by the answer of the logout, by cancelling it or by the end of the session, which
  -- takes the token away.
  pub step-Moves : (e : Event) (t : Tab) → Moves (core t) (cause e) (core (step me nonce e t))
  unfolding step cause mounted start_resumed message_received refresh_answered refresh_resumed
      login_started login_answered cancel_logout clear_session retry_timer_fired refresh_timer_fired
      unmounted commit_session resolve_peer_waiters abort_authorized_requests clear_retry_timer
  step-Moves (mounts now channel) t = start_with-Moves me nonce now _ _
  step-Moves (start_resumes now) t = continue_start-Moves now t.startup t
  step-Moves startup_window_ends t = stays
  step-Moves (receives now value) t =
      if-intro (λ u. Moves (core t) background (core u)) (t.is_mounted && t.has_channel)
        (λ _. parsed_message-Moves me nonce now (parse_auth_channel_message value now) t)
        (λ _. stays)
  step-Moves (refresh_asked now) t = refresh_session-Moves background now t
  step-Moves (lock_granted_at now) t = lock_granted-Moves background me now t
  step-Moves (lock_refused_with failure) t =
      same background t (lock_refused failure t) (core-lock_refused failure t)
  step-Moves refresh_window_ends t = stays
  step-Moves (peers_answered_at now) t =
      same background t (peers_answered now t) (core-peers_answered now t)
  step-Moves (refresh_answers now r) t = after_fetch-Moves me now r t.refresh t
  step-Moves (refresh_resumes now) t = finish_refresh-Moves me nonce now t.refresh t
  step-Moves login_starts t = begins_login refl
  step-Moves (login_answers now response name) t = login_answered-Moves me now response name t
  step-Moves (logs_out now) t = logout-Moves logout_begins now t refl
  step-Moves (logout_answers now r) t = logout_answered-Moves logout_ends me nonce now r t refl
  step-Moves (cancels_logout now) t =
      if-intro (λ u. Moves (core t) logout_cancelled (core u)) (is_logout_failed t.session)
        (λ here. restore-Moves logout_cancelled now t.logout_fallback t refl here) (λ _. stays)
  step-Moves (clears now reason) t =
      clear_session_internal-Moves background me nonce (some reason) true now t (inl refl)
  step-Moves (asks_token now minimum) t = get_access_token-Moves background now minimum t
  step-Moves (request_starts n) t = stays
  step-Moves (request_ends n) t = stays
  step-Moves (retry_timer_fires now) t = retry_timer_fired-Moves now t
  step-Moves (refresh_timer_fires now) t = refresh_session-Moves background now t
  step-Moves (shows now visible) t =
      same background t (became_visible now visible t) (core-became_visible now visible t)
  step-Moves unmounts t = stays
  step-Moves (storage_changes s) t = stays
