-- ===== src/Auth/Session/Changes.antt =====
-- frontend/src/features/auth-session.tsx: how a session begins, ends and is tried again. The cache
-- that clearAllSessionCaches empties is the query library's and has no part in the state.
use stechbaza_iot.Prelude.{
  Bool, Option, String, false, if◌then◌else◌, is_some, min, none, not, some, true, ℕ, ◌*◌, ◌+◌,
  ◌||◌,
}
use stechbaza_iot.Api.Errors.{Failure, api_error, error}
use stechbaza_iot.Api.Errors.Message.{api_error_display_message}
use stechbaza_iot.Auth.Channel.{
  ClearedReason, SessionSnapshot, logout, session_cleared, session_snapshot,
}
use stechbaza_iot.Auth.Logout.{Storage, clear_logout_marker, record_logout_marker}
use stechbaza_iot.Auth.Request.{text_of}
use stechbaza_iot.Auth.Session.State.{
  Authenticated, Session, Source, Tab, TokenResponse, abort_authorized_requests, anonymous,
  authenticated, clear_retry_timer, commit_session, email_of, from_peer, is_leaving,
  max_timer_delay_ms, min_peer_token_validity_ms, or_else, post_message, recent_logout,
  resolve_peer_waiters, session_origin, unavailable,
}
use stechbaza_iot.Auth.Timing.{is_snapshot_usable, refresh_retry_delay_ms}
use stechbaza_iot.Prelude.Int.{ltb_ℤ, pos, ℤ, ◌+ℤ◌, ◌-ℤ◌}

-- The options of applyTokenResponse.
pub record TokenOptions : Type 0 where
  pub email : Option String
  pub source : Source
  pub issued_at : ℤ
  pub broadcast : Bool
  pub force : Bool

-- The guard of applyTokenResponse and refreshSession.
unfoldable pub refuses_tokens : ℤ → Tab → Bool × Tab
refuses_tokens now t =
    if t.logout_intent || is_leaving t.session then (true, t) else recent_logout now t

-- The first two guards of applyPeerSnapshot.
unfoldable pub refuses_peers : ℤ → Tab → Bool × Tab
refuses_peers now t =
    if t.logout_intent
    then (true, t)
    else let (seen, t') = recent_logout now t in (seen || is_leaving t'.session, t')

-- What both ways to sign in do alike.
unfoldable pub sign_in : Authenticated → String → ℤ → Tab → Tab
sign_in next token issued_at t = commit_session (authenticated next) (
    clear_retry_timer (record t {
      access_token = some token;
      last_event_at = issued_at;
      retry_attempt = 0;
      refresh_not_before = pos 0;
    }))

unfoldable pub post_snapshot : String → Option String → ℤ → Authenticated → String → Tab → Tab
post_snapshot me target issued_at a token t =
    post_message
      (session_snapshot (record {
        source_tab = me;
        target_tab = target;
        issued_at = issued_at;
        session_origin = session_origin a;
        email = a.email;
        access_token = token;
        access_expires_at = a.access_expires_at;
        session_expires_at = a.session_expires_at;
      }))
      t

unfoldable pub publish_token : String → ℤ → Authenticated → Option String → Tab → Tab
publish_token me now a none t = t
publish_token me now a (some token) t =
    if t.logout_intent
    then t
    else let (seen, t') = recent_logout now t in
      if seen then t' else post_snapshot me none t'.last_event_at a token t'

-- publishSnapshot(authenticated)
unfoldable pub publish_snapshot : String → ℤ → Authenticated → Tab → Tab
publish_snapshot me now a t = publish_token me now a (text_of t.access_token) t

-- new Date after `seconds`
abbrev pub later : ℤ → ℕ → ℤ
later now seconds = now +ℤ pos (seconds * 1000)

unfoldable pub token_session : ℤ → TokenResponse → TokenOptions → Session → Authenticated
token_session now response o current = record {
  email = or_else o.email (email_of current);
  access_expires_at = later now response.expires_in;
  session_expires_at = later now response.session_expires_in;
  source = o.source;
  refresh_message = none;
}

-- applyTokenResponse behind its guards
unfoldable pub accept_token : String → ℤ → TokenResponse → TokenOptions → Tab → Tab
accept_token me now response o t =
    let next = token_session now response o t.session in
    let t' = sign_in next response.access_token o.issued_at t in
    if o.broadcast then publish_snapshot me now next t' else t'

-- applyTokenResponse(response, options)
unfoldable pub apply_token_response : String → ℤ → TokenResponse → TokenOptions → Tab → Bool × Tab
apply_token_response me now response o t =
    if o.force
    then (
      true,
      accept_token me now response o (record t {
        storage = clear_logout_marker t.storage;
        logout_intent = false;
        logout_fallback = none;
      }),
    )
    else let (refused, t') = refuses_tokens now t in
      if refused
      then (false, t')
      else if ltb_ℤ o.issued_at t'.last_event_at
      then (false, t')
      else (true, accept_token me now response o t')

unfoldable pub peer_session : SessionSnapshot → Session → Authenticated
peer_session s current = record {
  email = or_else s.email (email_of current);
  access_expires_at = s.access_expires_at;
  session_expires_at = s.session_expires_at;
  source = from_peer;
  refresh_message = none;
}

unfoldable pub accept_peer : SessionSnapshot → Tab → Tab
accept_peer s t =
    sign_in (peer_session s t.session) s.access_token s.issued_at
      (record t { latest_peer = some s })

-- applyPeerSnapshot(snapshot)
unfoldable pub apply_peer_snapshot : ℤ → SessionSnapshot → Tab → Bool × Tab
apply_peer_snapshot now s t =
    let (refused, t') = refuses_peers now t in
    if refused || not (is_snapshot_usable s now min_peer_token_validity_ms)
    then (false, t')
    else if ltb_ℤ s.issued_at t'.last_event_at
    then (false, t')
    else (true, accept_peer s t')

-- `if (reason === "logout") recordLogoutMarker(issuedAt)`
unfoldable pub record_if_logout : String → Option ClearedReason → ℤ → Storage → Storage
record_if_logout nonce (some logout) issued_at s = record_logout_marker issued_at nonce s
record_if_logout nonce reason issued_at s = s

unfoldable pub post_cleared : String → Bool → Option ClearedReason → ℤ → Tab → Tab
post_cleared me broadcast none issued_at t = t
post_cleared me broadcast (some reason) issued_at t =
    if broadcast then post_message (session_cleared me issued_at reason) t else t

-- What is left of a tab that signs out.
unfoldable pub sign_out : String → Option ClearedReason → ℤ → Tab → Tab
sign_out nonce reason issued_at t = commit_session (anonymous reason) (
    resolve_peer_waiters none (
      abort_authorized_requests (
        clear_retry_timer (record t {
          storage = record_if_logout nonce reason issued_at t.storage;
          logout_intent = false;
          logout_fallback = none;
          access_token = none;
          latest_peer = none;
          last_event_at = issued_at;
          retry_attempt = 0;
          refresh_not_before = pos 0;
        }))))

-- clearSessionInternal(reason, { broadcast, issuedAt }), where recordLogoutMarker takes `nonce`
unfoldable pub clear_session_internal :
    String → String → Option ClearedReason → Bool → ℤ → Tab → Tab
clear_session_internal me nonce reason broadcast issued_at t =
    if ltb_ℤ issued_at t.last_event_at
    then t
    else post_cleared me broadcast reason issued_at (sign_out nonce reason issued_at t)

-- isApiError(error) ? error.retryAfterSeconds : null
unfoldable pub retry_after_of : Failure → Option ℕ
retry_after_of (api_error e) = e.retry_after_seconds
retry_after_of (error message) = none

-- The session of the tab, where its token lasts long enough.
unfoldable pub usable_session : ℤ → ℕ → Session → Option String → Option (Authenticated × String)
usable_session now minimum (authenticated a) (some token) =
    if ltb_ℤ (pos minimum) (a.access_expires_at -ℤ now) then some (a, token) else none
usable_session now minimum s token = none

unfoldable pub degraded : String → ℤ → Option (Authenticated × String) → Session
degraded message retry_at (some (a, token)) =
    authenticated (record a { refresh_message = some message })
degraded message retry_at none = unavailable message retry_at

-- scheduleRetry(error)
unfoldable pub schedule_retry : ℤ → Failure → Tab → Tab
schedule_retry now failure t =
    let retry_after = retry_after_of failure in
    let delay = refresh_retry_delay_ms (pos t.retry_attempt) retry_after in
    let retry_at = now +ℤ pos delay in
    let usable = usable_session now min_peer_token_validity_ms t.session t.access_token in
    if t.logout_intent
    then t
    else record (commit_session (degraded (api_error_display_message failure) retry_at usable) t) {
      retry_timer = some (min delay max_timer_delay_ms);
      retry_attempt = t.retry_attempt + 1;
      refresh_not_before = if is_some retry_after then retry_at else pos 0;
    }
