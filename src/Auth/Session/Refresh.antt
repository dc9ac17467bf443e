-- ===== src/Auth/Session/Refresh.antt =====
-- frontend/src/features/auth-session.tsx and auth-session-runtime.ts: the refresh of a session, from
-- one `await` to the next. A function of a phase that the refresh is not in changes nothing.
use stechbaza_iot.Prelude.{
  Bool, Option, String, false, if◌then◌else◌, min, none, not, some, true, ◌||◌,
}
use stechbaza_iot.Api.Errors.{
  ErrorKind, Failure, Result, aborted, api_error, err, error, forbidden, ok, unauthorized,
}
use stechbaza_iot.Auth.Channel.{ClearedReason, SessionSnapshot, expired, revoked, session_request}
use stechbaza_iot.Auth.Session.Changes.{
  TokenOptions, apply_peer_snapshot, apply_token_response, clear_session_internal, refuses_tokens,
  schedule_retry,
}
use stechbaza_iot.Auth.Session.State.{
  Outcome, RefreshPhase, Session, Tab, TokenResponse, Waiter, api, asking, email_of, ended, failed,
  fetching, from_refresh, is_new_usable_peer_snapshot, locking, max_timer_delay_ms, no_refresh,
  peer, post_message, recent_logout,
}
use stechbaza_iot.Prelude.Int.{ltb_ℤ, pos, pos_part, ℤ, ◌-ℤ◌}

unfoldable pub set_refresh : RefreshPhase → Tab → Tab
set_refresh p t = record t { refresh = p }

-- requestPeerSnapshot(): the promise, which is resolved at once where no tab can be asked.
unfoldable pub request_peer_snapshot : String → ℤ → Tab → Waiter × Tab
request_peer_snapshot me now t =
    if not t.has_channel || t.logout_intent
    then (some none, t)
    else let (seen, t') = recent_logout now t in
      if seen then (some none, t') else (none, post_message (session_request me now) t')

-- The cooldown after a 429 or 503: a timer is set for its end if there is none.
unfoldable pub wait_for_cooldown : ℤ → Tab → Tab
wait_for_cooldown remaining t = record t {
  retry_timer = elim t.retry_timer [
    | none ↦ some (min (pos_part remaining) max_timer_delay_ms)
    | some delay ↦ some delay
  ];
}

unfoldable pub begin_refresh : ℤ → RefreshPhase → Tab → Bool × Tab
begin_refresh now no_refresh t =
    let remaining = t.refresh_not_before -ℤ now in
    if ltb_ℤ (pos 0) remaining
    then (false, wait_for_cooldown remaining t)
    else (true, set_refresh (locking t.last_event_at) t)
begin_refresh now p t = (true, t)

-- refreshSession(reason): false if it answers `false` at once, true if the refresh that runs is to
-- answer. The reason is not read.
unfoldable pub refresh_session : ℤ → Tab → Bool × Tab
refresh_session now t =
    let (refused, t') = refuses_tokens now t in
    if refused then (false, t') else begin_refresh now t'.refresh t'

unfoldable pub ask_peers : String → ℤ → ℤ → Tab → Tab
ask_peers me now baseline t =
    let (w, t') = request_peer_snapshot me now t in set_refresh (asking baseline w) t'

unfoldable pub with_peer : ℤ → ℤ → Option SessionSnapshot → Tab → Tab → Tab
with_peer now baseline none t otherwise = otherwise
with_peer now baseline (some s) t otherwise =
    if is_new_usable_peer_snapshot (some s) baseline now
    then set_refresh (ended baseline (peer s)) t
    else otherwise

unfoldable pub enter_lock : String → ℤ → RefreshPhase → Tab → Tab
enter_lock me now (locking baseline) t =
    with_peer now baseline t.latest_peer t (ask_peers me now baseline t)
enter_lock me now p t = t

-- The callback of withCrossTabAuthLock, to its first await
unfoldable pub lock_granted : String → ℤ → Tab → Tab
lock_granted me now t = enter_lock me now t.refresh t

-- withCrossTabAuthLock rejects: it has no lock, or it has lost it.
unfoldable pub refuse_lock : Failure → RefreshPhase → Tab → Tab
refuse_lock failure no_refresh t = t
refuse_lock failure (ended baseline o) t = t
refuse_lock failure (locking baseline) t = set_refresh (ended baseline (failed failure)) t
refuse_lock failure (asking baseline w) t = set_refresh (ended baseline (failed failure)) t
refuse_lock failure (fetching baseline) t = set_refresh (ended baseline (failed failure)) t

unfoldable pub lock_refused : Failure → Tab → Tab
lock_refused failure t = refuse_lock failure t.refresh t

unfoldable pub after_peers : ℤ → RefreshPhase → Tab → Tab
after_peers now (asking baseline (some answer)) t =
    with_peer now baseline answer t (set_refresh (fetching baseline) t)
after_peers now p t = t

-- The callback goes on once the other tabs have answered, or PEER_RESPONSE_WINDOW_MS is over.
unfoldable pub peers_answered : ℤ → Tab → Tab
peers_answered now t = after_peers now t.refresh t

abbrev pub refresh_options : ℤ → Bool → Session → TokenOptions
refresh_options issued_at broadcast current = record {
  email = email_of current;
  source = from_refresh;
  issued_at = issued_at;
  broadcast = broadcast;
  force = false;
}

-- commitApiRefresh(response, issuedAt)
unfoldable pub commit_api_refresh : String → ℤ → TokenResponse → ℤ → Tab → Tab
commit_api_refresh me now response issued_at t =
    (apply_token_response me now response (refresh_options issued_at true t.session) t).1

unfoldable pub after_fetch : String → ℤ → Result TokenResponse → RefreshPhase → Tab → Tab
after_fetch me now (ok response) (fetching baseline) t =
    set_refresh (ended baseline (api response now)) (commit_api_refresh me now response now t)
after_fetch me now (err failure) (fetching baseline) t =
    set_refresh (ended baseline (failed failure)) t
after_fetch me now r p t = t

-- browserRefresh() answers, and the callback ends.
unfoldable pub refresh_answered : String → ℤ → Result TokenResponse → Tab → Tab
refresh_answered me now r t = after_fetch me now r t.refresh t

-- The reason that a refused refresh ends the session for.
unfoldable pub end_of_kind : ErrorKind → Option ClearedReason
end_of_kind unauthorized = some expired
end_of_kind forbidden = some revoked
end_of_kind kind = none

unfoldable pub is_aborted : ErrorKind → Bool
is_aborted aborted = true
is_aborted kind = false

unfoldable pub end_of : Failure → Option ClearedReason
end_of (api_error e) = end_of_kind e.kind
end_of (error message) = none

unfoldable pub was_aborted : Failure → Bool
was_aborted (api_error e) = is_aborted e.kind
was_aborted (error message) = false

unfoldable pub refuse_refresh : String → String → ℤ → Failure → Option ClearedReason → Tab → Tab
refuse_refresh me nonce now failure (some reason) t =
    clear_session_internal me nonce (some reason) true now t
refuse_refresh me nonce now failure none t =
    if was_aborted failure then t else schedule_retry now failure t

-- The catch block of refreshSession: a snapshot that came in the meantime is taken.
unfoldable pub catch_refresh :
    String → String → ℤ → ℤ → Failure → Option SessionSnapshot → Tab → Bool × Tab
catch_refresh me nonce now baseline failure none t =
    (false, refuse_refresh me nonce now failure (end_of failure) t)
catch_refresh me nonce now baseline failure (some s) t =
    if is_new_usable_peer_snapshot (some s) baseline now
    then apply_peer_snapshot now s t
    else (false, refuse_refresh me nonce now failure (end_of failure) t)

unfoldable pub conclude : String → String → ℤ → ℤ → Outcome → Tab → Bool × Tab
conclude me nonce now baseline (peer s) t = apply_peer_snapshot now s t
conclude me nonce now baseline (api response issued_at) t =
    apply_token_response me now response (refresh_options issued_at false t.session) t
conclude me nonce now baseline (failed failure) t =
    catch_refresh me nonce now baseline failure t.latest_peer t

unfoldable pub finish_refresh : String → String → ℤ → RefreshPhase → Tab → Bool × Tab
finish_refresh me nonce now (ended baseline o) t =
    let (applied, t') = conclude me nonce now baseline o t in (applied, set_refresh no_refresh t')
finish_refresh me nonce now p t = (false, t)

-- The rest of refreshSession, and what its promise answers.
unfoldable pub refresh_resumed : String → String → ℤ → Tab → Bool × Tab
refresh_resumed me nonce now t = finish_refresh me nonce now t.refresh t
