-- ===== src/Auth/Session/Actions.antt =====
-- frontend/src/features/auth-session.tsx: what the pages and the other tabs do with the session of a
-- tab.
use stechbaza_iot.Prelude.{
  Bool, Option, String, false, if◌then◌else◌, none, not, some, str_eq, true, ℕ, ◌&&◌, ◌||◌,
}
use stechbaza_iot.Api.Errors.{Failure, Result, err, ok}
use stechbaza_iot.Api.Errors.Message.{api_error_display_message}
use stechbaza_iot.Auth.Channel.{
  AuthChannelMessage, ClearedReason, SessionSnapshot, parse_auth_channel_message, session_cleared,
  session_request, session_snapshot,
}
use stechbaza_iot.Auth.Request.{text_of}
use stechbaza_iot.Auth.Session.Changes.{
  TokenOptions, apply_peer_snapshot, apply_token_response, clear_session_internal, later,
  post_snapshot, retry_after_of, usable_session,
}
use stechbaza_iot.Auth.Session.Refresh.{refresh_session}
use stechbaza_iot.Auth.Session.State.{
  Authenticated, LogoutFallback, Session, Tab, TokenResponse, abort_authorized_requests, anonymous,
  authenticated, clear_retry_timer, commit_session, from_login, is_zero, logging_out, logout_failed,
  min_peer_token_validity_ms, normalize_email, recent_logout, resolve_peer_waiters, restoring,
}
use stechbaza_iot.Host.{Host}
use stechbaza_iot.Js.Value.{Value}
use stechbaza_iot.Prelude.Int.{ltb_ℤ, pos, ℤ, ◌-ℤ◌}

-- login(payload), once the lock is granted, to the await of browserLogin
unfoldable pub login_started : Tab → Tab
login_started t = record t { logout_intent = false; logout_fallback = none }

abbrev pub login_options : ⦃h : Host⦄ → ℤ → String → TokenOptions
login_options now name = record {
  email = some (normalize_email name);
  source = from_login;
  issued_at = now;
  broadcast = true;
  force = true;
}

-- browserLogin answers; `name` is payload.email ?? payload.controller_id ?? "".
unfoldable pub login_answered : ⦃h : Host⦄ → String → ℤ → TokenResponse → String → Tab → Tab
login_answered me now response name t =
    (apply_token_response me now response (login_options now name) t).1

unfoldable pub fallback_of : Session → Option String → Option LogoutFallback → Option LogoutFallback
fallback_of (authenticated a) (some token) old = some (record { session = a; access_token = token })
fallback_of s token old = old

unfoldable pub fallback_email : Option LogoutFallback → Option String
fallback_email none = none
fallback_email (some f) = f.session.email

unfoldable pub begin_logout : ℤ → Tab → Tab
begin_logout now t =
    let fallback = fallback_of t.session (text_of t.access_token) t.logout_fallback in
    let t' = record t {
      logout_fallback = fallback;
      logout_intent = true;
      is_logout_running = true;
    } in
    commit_session (logging_out now (fallback_email fallback))
      (resolve_peer_waiters none (abort_authorized_requests (clear_retry_timer t')))

-- logout(), to the lock of the tabs; one that is running is shared.
unfoldable pub logout : ℤ → Tab → Tab
logout now t = if t.is_logout_running then t else begin_logout now t

unfoldable pub retry_at_of : ℤ → Option ℕ → Option ℤ
retry_at_of now none = none
retry_at_of now (some seconds) = some (later now seconds)

-- session.status === "anonymous" && session.reason === "logout"
abbrev pub is_logged_out : Session → Bool
is_logged_out (anonymous (some ClearedReason.logout)) = true
is_logged_out s = false

unfoldable pub catch_logout : ℤ → Failure → Tab → Bool × Tab
catch_logout now failure t = if is_logged_out t.session then (true, t) else (
  false,
  commit_session
      (logout_failed (api_error_display_message failure) (retry_at_of now (retry_after_of failure))
        (fallback_email t.logout_fallback))
      (record t { logout_intent = false }),
)

unfoldable pub logout_result : String → String → ℤ → Result (Unit {0}) → Tab → Bool × Tab
logout_result me nonce now (ok u) t =
    (true, clear_session_internal me nonce (some ClearedReason.logout) true now t)
logout_result me nonce now (err failure) t = catch_logout now failure t

unfoldable pub end_logout : Bool × Tab → Bool × Tab
end_logout (left, t) = (left, record t { is_logout_running = false })

-- browserLogout() has ended well, or the lock or the call has failed; what the promise answers.
unfoldable pub logout_answered : String → String → ℤ → Result (Unit {0}) → Tab → Bool × Tab
logout_answered me nonce now r t =
    if t.is_logout_running then end_logout (logout_result me nonce now r t) else (false, t)

unfoldable pub restore : ℤ → Option LogoutFallback → Tab → Tab
restore now none t = (refresh_session now (commit_session (restoring now) t)).1
restore now (some f) t =
    if ltb_ℤ now f.session.session_expires_at
      && ltb_ℤ (pos min_peer_token_validity_ms) (f.session.access_expires_at -ℤ now)
    then commit_session (authenticated (record f.session { refresh_message = none }))
        (record t { access_token = some f.access_token })
    else (refresh_session now (commit_session (restoring now) t)).1

abbrev pub is_logout_failed : Session → Bool
is_logout_failed (logout_failed message at email) = true
is_logout_failed s = false

-- cancelLogout()
unfoldable pub cancel_logout : ℤ → Tab → Tab
cancel_logout now t =
    if is_logout_failed t.session
    then restore now t.logout_fallback (record t { logout_intent = false; logout_fallback = none })
    else t

-- clearSession(reason)
unfoldable pub clear_session : String → String → ClearedReason → ℤ → Tab → Tab
clear_session me nonce reason now t = clear_session_internal me nonce (some reason) true now t

-- What getAccessToken answers: at once, or once the refresh has ended.
pub data Access : Type 0 where
  at_once : Option String → Access
  when_refreshed : Access

unfoldable pub refresh_for_token : Bool × Tab → Access × Tab
refresh_for_token (runs, t) = (if runs then when_refreshed else at_once none, t)

unfoldable pub token_or_refresh : ℤ → Option (Authenticated × String) → Tab → Access × Tab
token_or_refresh now (some (a, token)) t = (at_once (some token), t)
token_or_refresh now none t = refresh_for_token (refresh_session now t)

-- getAccessToken(minimumValidityMs)
unfoldable pub get_access_token : ℤ → ℕ → Tab → Access × Tab
get_access_token now minimum t =
    if t.logout_intent
    then (at_once none, t)
    else token_or_refresh now (usable_session now minimum t.session (text_of t.access_token)) t

-- The rest of getAccessToken: refreshed && !logoutIntent ? accessToken : null
unfoldable pub token_after_refresh : Bool → Tab → Option String
token_after_refresh refreshed t = if refreshed && not t.logout_intent then t.access_token else none

unfoldable pub answer_peer : String → String → ℤ → Option (Authenticated × String) → Tab → Tab
answer_peer me source now (some (a, token)) t =
    post_snapshot me (some source) (if is_zero t.last_event_at then now else t.last_event_at) a
      token t
answer_peer me source now none t = t

-- A session-request of another tab
unfoldable pub on_request : String → String → ℤ → Tab → Tab
on_request me source now t =
    if t.logout_intent
    then t
    else let (seen, t') = recent_logout now t in
      if seen
      then t'
      else answer_peer me source now
          (usable_session now min_peer_token_validity_ms t'.session (text_of t'.access_token)) t'

-- message.targetTab === null || message.targetTab === DOCUMENT_TAB_ID
unfoldable pub is_for : String → Option String → Bool
is_for me none = true
is_for me (some tab) = str_eq tab me

unfoldable pub on_snapshot : String → ℤ → SessionSnapshot → Tab → Tab
on_snapshot me now s t =
    if is_for me s.target_tab
    then (apply_peer_snapshot now s
        (resolve_peer_waiters (some s) (record t { latest_peer = some s }))).1
    else t

unfoldable pub on_message : String → String → ℤ → AuthChannelMessage → Tab → Tab
on_message me nonce now (session_request source issued_at) t =
    if str_eq source me then t else on_request me source now t
on_message me nonce now (session_snapshot s) t =
    if str_eq s.source_tab me then t else on_snapshot me now s t
on_message me nonce now (session_cleared source issued_at reason) t =
    if str_eq source me || ltb_ℤ issued_at t.last_event_at
    then t
    else clear_session_internal me nonce (some reason) false issued_at t

unfoldable pub parsed_message : String → String → ℤ → Option AuthChannelMessage → Tab → Tab
parsed_message me nonce now none t = t
parsed_message me nonce now (some m) t = on_message me nonce now m t

-- The listener of the channel
unfoldable pub message_received : ⦃h : Host⦄ → String → String → ℤ → Value → Tab → Tab
message_received me nonce now value t =
    if t.is_mounted && t.has_channel
    then parsed_message me nonce now (parse_auth_channel_message value now) t
    else t
