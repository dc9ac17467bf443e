-- ===== src/Auth/Session/Machine/Quiet.antt =====
-- The events of frontend/src/features/auth-session.tsx after a logout.
use stechbaza_iot.Prelude.{
  Bool, Each, List, Option, String, [], ap, false, if-intro, none, none-some, not, refl, some,
  str_eq, subst, sym, true, ℕ, ◌&&◌, ◌||◌, ◌∙◌, ◌∷◌, ◌≡◌,
}
use stechbaza_iot.Auth.Channel.{
  AuthChannelMessage, SessionSnapshot, parse_auth_channel_message, session_cleared, session_request,
  session_snapshot,
}
use stechbaza_iot.Auth.Logout.Window.{IsRecent}
use stechbaza_iot.Auth.Request.{text_of}
use stechbaza_iot.Auth.Session.Actions.{
  Access, begin_logout, cancel_logout, clear_session, fallback_of, get_access_token, is_for,
  is_logout_failed, login_started, logout, message_received, on_message, on_request, on_snapshot,
  parsed_message, refresh_for_token, restore, token_or_refresh,
}
use stechbaza_iot.Auth.Session.Startup.{
  became_visible, continue_start, refresh_if_short, refresh_timer_fired, refresh_unless,
  retry_timer_fired, set_startup, start_from, start_resumed, unmounted,
}
use stechbaza_iot.Auth.Session.Changes.{apply_peer_snapshot, usable_session}
use stechbaza_iot.Auth.Session.Machine.{
  Event, asks_token, cancels_logout, clears, lock_granted_at, lock_refused_with, login_answers,
  login_starts, logout_answers, logs_out, mounts, peers_answered_at, receives, refresh_answers,
  refresh_asked, refresh_resumes, refresh_timer_fires, refresh_window_ends, request_ends,
  request_starts, retry_timer_fires, run, shows, start_resumes, startup_window_ends, step,
  storage_changes, unmounts,
}
use stechbaza_iot.Auth.Session.Machine.Background.{
  after_fetch-IsShut, after_peers-IsShut, enter_lock-IsShut, finish_refresh-IsShut,
  refuse_lock-IsShut, same_token,
}
use stechbaza_iot.Auth.Session.Machine.Marked.{
  IsShut, apply_peer_snapshot-marked, on_request-marked, refresh_session-marked,
}
use stechbaza_iot.Auth.Session.Machine.Shut.{
  IsNotCleared, IsQuiet, apply_peer_snapshot-IsShut, clear_session_internal-IsShut, moved,
  refresh_session-IsShut,
}
use stechbaza_iot.Auth.Session.Refresh.{
  lock_granted, lock_refused, peers_answered, refresh_answered, refresh_resumed, refresh_session,
}
use stechbaza_iot.Auth.Session.State.{
  Authenticated, LogoutFallback, Session, Startup, Tab, abort_authorized_requests, asking_peers,
  authenticated, authenticated?, clear_retry_timer, commit_session, min_access_validity_ms,
  not_started, resolve_peer_waiters, started,
}
use stechbaza_iot.Host.{Host}
use stechbaza_iot.Prelude.Int.{leb_ℤ, pos, ℤ, ◌-ℤ◌}

fallback_of-none : (s : Session) (old : Option LogoutFallback) → fallback_of s none old ≡ old
unfolding fallback_of
fallback_of-none (authenticated a) old = refl
fallback_of-none s old = refl

module _ {at : ℤ} where
  start_from-IsShut :
      (now : ℤ) (p : Option SessionSnapshot) (t : Tab)
      → IsRecent at now
      → IsShut at t
      → IsShut at (start_from now p t)
  unfolding start_from refresh_unless
  start_from-IsShut now none t r s = refresh_session-IsShut now t r s
  start_from-IsShut now (some p) t r s =
      moved t (refresh_unless now (apply_peer_snapshot now p t))
        (ap (refresh_unless now) (apply_peer_snapshot-marked now t s.marked r p)
          ∙ refresh_unless-marked)
        s
    where
      refresh_unless-marked : refresh_unless now (false, t) ≡ t
      refresh_unless-marked = ap (λ q. q.1) (refresh_session-marked now t s.marked r)

  continue_start-IsShut :
      (now : ℤ) (p : Startup) (t : Tab)
      → IsRecent at now
      → IsShut at t
      → IsShut at (continue_start now p t)
  unfolding continue_start set_startup
  continue_start-IsShut now (asking_peers (some answer)) t r s =
      let u = record t { startup = started } in
      let v = same_token {t = t} {u = u} refl refl refl s in
      if-intro (λ w. IsShut at w) t.is_mounted (λ _. start_from-IsShut now answer u r v) (λ _. v)
  continue_start-IsShut now (asking_peers none) t r s = s
  continue_start-IsShut now not_started t r s = s
  continue_start-IsShut now started t r s = s

  on_message-IsShut :
      (me nonce : String) (now : ℤ) (m : Option AuthChannelMessage) (t : Tab)
      → IsRecent at now
      → IsNotCleared m
      → IsShut at t
      → IsShut at (parsed_message me nonce now m t)
  unfolding parsed_message on_message on_snapshot resolve_peer_waiters
  on_message-IsShut me nonce now none t r q s = s
  on_message-IsShut me nonce now (some (session_request source issued_at)) t r q s =
      if-intro (λ u. IsShut at u) (str_eq source me) (λ _. s)
        (λ _. moved t (on_request me source now t) (on_request-marked now t s.marked r me source) s)
  on_message-IsShut me nonce now (some (session_snapshot p)) t r q s =
      let u = resolve_peer_waiters (some p) (record t { latest_peer = some p }) in
      if-intro (λ w. IsShut at w) (str_eq p.source_tab me) (λ _. s)
        (λ _.
          if-intro (λ w. IsShut at w) (is_for me p.target_tab)
            (λ _. apply_peer_snapshot-IsShut now p u r (same_token {t = t} refl refl refl s))
            (λ _. s))
  on_message-IsShut me nonce now (some (session_cleared source issued_at reason)) t r q s = absurd q

  begin_logout-IsShut : (now : ℤ) (t : Tab) → IsShut at t → IsShut at (begin_logout now t)
  unfolding begin_logout commit_session resolve_peer_waiters abort_authorized_requests
      clear_retry_timer
  begin_logout-IsShut now t s = record {
    marked = s.marked;
    no_token = s.no_token;
    no_fallback =
        subst (λ x. fallback_of t.session (text_of x) t.logout_fallback ≡ none) (sym s.no_token)
          (fallback_of-none t.session t.logout_fallback ∙ s.no_fallback);
  }

  restore-IsShut :
      (now : ℤ) (f : Option LogoutFallback) (t : Tab)
      → f ≡ none
      → IsRecent at now
      → IsShut at t
      → IsShut at (restore now f (record t { logout_intent = false; logout_fallback = none }))
  unfolding restore commit_session
  restore-IsShut now none t e r s =
      refresh_session-IsShut now _ r
        (record { marked = s.marked; no_token = s.no_token; no_fallback = refl })
  restore-IsShut now (some f) t e r s = absurd (none-some (sym e))

  ask_token-IsShut :
      (now : ℤ) (minimum : ℕ) (t : Tab)
      → IsRecent at now
      → IsShut at t
      → IsShut at (get_access_token now minimum t).1
  unfolding get_access_token token_or_refresh refresh_for_token
  ask_token-IsShut now minimum t r s =
      if-intro (λ (p : Access × Tab). IsShut at p.1) t.logout_intent (λ _. s)
        (λ _. asked (usable_session now minimum t.session (text_of t.access_token)))
    where
      asked : (u : Option (Authenticated × String)) → IsShut at (token_or_refresh now u t).1
      asked (some (a, token)) = s
      asked none = refresh_session-IsShut now t r s

  retry_timer_fired-IsShut :
      (now : ℤ) (t : Tab) → IsRecent at now → IsShut at t → IsShut at (retry_timer_fired now t)
  unfolding retry_timer_fired clear_retry_timer
  retry_timer_fired-IsShut now t r s =
      elim t.retry_timer
        as (λ d.
          IsShut at
            (elim d [ none ↦ t | some delay ↦ (refresh_session now (clear_retry_timer t)).1 ])) [
              | none ↦ s
              | some delay ↦
                  refresh_session-IsShut now (clear_retry_timer t) r
                    (same_token {t = t} refl refl refl s)
            ]

  became_visible-IsShut :
      (now : ℤ) (visible : Bool) (t : Tab)
      → IsRecent at now
      → IsShut at t
      → IsShut at (became_visible now visible t)
  unfolding became_visible refresh_if_short
  became_visible-IsShut now visible t r s =
      if-intro (λ u. IsShut at u) (not visible || t.logout_intent) (λ _. s)
        (λ _. seen (authenticated? t.session))
    where
      seen : (a : Option Authenticated) → IsShut at (refresh_if_short now a t)
      seen none = s
      seen (some a) =
          if-intro (λ u. IsShut at u)
            (leb_ℤ (a.access_expires_at -ℤ now) (pos min_access_validity_ms))
            (λ _. refresh_session-IsShut now t r s) (λ _. s)

module _ ⦃h : Host⦄ (me nonce : String) {at : ℤ} where
  step-IsShut : (e : Event) (t : Tab) → IsQuiet at e → IsShut at t → IsShut at (step me nonce e t)
  unfolding step start_resumed message_received refresh_answered lock_granted lock_refused
      peers_answered refresh_resumed login_started logout cancel_logout clear_session
      get_access_token token_or_refresh refresh_for_token retry_timer_fired refresh_timer_fired
      became_visible refresh_if_short unmounted resolve_peer_waiters abort_authorized_requests
      clear_retry_timer
  step-IsShut (mounts now channel) t q s = absurd q
  step-IsShut (start_resumes now) t q s = continue_start-IsShut now t.startup t q s
  step-IsShut startup_window_ends t q s = same_token {t = t} refl refl refl s
  step-IsShut (receives now value) t q s =
      if-intro (λ u. IsShut at u) (t.is_mounted && t.has_channel)
        (λ _. on_message-IsShut me nonce now (parse_auth_channel_message value now) t q.0 q.1 s)
        (λ _. s)
  step-IsShut (refresh_asked now) t q s = refresh_session-IsShut now t q s
  step-IsShut (lock_granted_at now) t q s = enter_lock-IsShut me now t.refresh t q s
  step-IsShut (lock_refused_with failure) t q s = refuse_lock-IsShut failure t.refresh t s
  step-IsShut refresh_window_ends t q s = same_token {t = t} refl refl refl s
  step-IsShut (peers_answered_at now) t q s = after_peers-IsShut now t.refresh t s
  step-IsShut (refresh_answers now r) t q s = after_fetch-IsShut me now r t.refresh t q s
  step-IsShut (refresh_resumes now) t q s = finish_refresh-IsShut me nonce now t.refresh t q s
  step-IsShut login_starts t q s = record {
    marked = s.marked;
    no_token = s.no_token;
    no_fallback = refl;
  }
  step-IsShut (login_answers now response name) t q s = absurd q
  step-IsShut (logs_out now) t q s =
      if-intro (λ u. IsShut at u) t.is_logout_running (λ _. s) (λ _. begin_logout-IsShut now t s)
  step-IsShut (logout_answers now r) t q s = absurd q
  step-IsShut (cancels_logout now) t q s =
      if-intro (λ u. IsShut at u) (is_logout_failed t.session)
        (λ _. restore-IsShut now t.logout_fallback t s.no_fallback q s) (λ _. s)
  step-IsShut (clears now reason) t q s =
      clear_session_internal-IsShut me nonce reason true now t q s
  step-IsShut (asks_token now minimum) t q s = ask_token-IsShut now minimum t q s
  step-IsShut (request_starts n) t q s = same_token {t = t} refl refl refl s
  step-IsShut (request_ends n) t q s = same_token {t = t} refl refl refl s
  step-IsShut (retry_timer_fires now) t q s = retry_timer_fired-IsShut now t q s
  step-IsShut (refresh_timer_fires now) t q s = refresh_session-IsShut now t q s
  step-IsShut (shows now visible) t q s = became_visible-IsShut now visible t q s
  step-IsShut unmounts t q s = same_token {t = t} refl refl refl s
  step-IsShut (storage_changes x) t q s = absurd q

  pub run-IsShut :
      (es : List Event) (t : Tab)
      → Each (IsQuiet at) es
      → IsShut at t
      → IsShut at (run me nonce es t)
  unfolding run
  run-IsShut [] t q s = s
  run-IsShut (e ∷ es) t q s = run-IsShut es (step me nonce e t) q.1 (step-IsShut e t q.0 s)
