-- ===== src/Auth/Session/Startup.antt =====
-- frontend/src/features/auth-session.tsx: the start of a tab, its timers and its end.
use stechbaza_iot.Prelude.{Bool, Option, String, false, if◌then◌else◌, none, not, some, true, ◌||◌}
use stechbaza_iot.Auth.Channel.{ClearedReason, SessionSnapshot}
use stechbaza_iot.Auth.Logout.{Storage, read_recent_logout_marker}
use stechbaza_iot.Auth.Session.Changes.{apply_peer_snapshot, clear_session_internal}
use stechbaza_iot.Auth.Session.Refresh.{refresh_session, request_peer_snapshot}
use stechbaza_iot.Auth.Session.State.{
  Authenticated, Startup, Tab, abort_authorized_requests, asking_peers, authenticated?,
  clear_retry_timer, min_access_validity_ms, resolve_peer_waiters, started,
}
use stechbaza_iot.Prelude.Int.{leb_ℤ, pos, ℤ, ◌-ℤ◌}

unfoldable pub set_startup : Startup → Tab → Tab
set_startup p t = record t { startup = p }

-- The first effect, to its await; `channel` says that the browser has BroadcastChannel.
unfoldable pub start_with : String → String → ℤ → Option ℤ × Storage → Tab → Tab
start_with me nonce now (some logout_at, s) t = set_startup started (
    clear_session_internal me nonce (some ClearedReason.logout) false logout_at
      (record t { storage = s }))
start_with me nonce now (none, s) t =
    let (w, t') = request_peer_snapshot me now (record t { storage = s }) in
    set_startup (asking_peers w) t'

unfoldable pub mounted : String → String → ℤ → Bool → Tab → Tab
mounted me nonce now channel t =
    start_with me nonce now (read_recent_logout_marker now t.storage)
      (record t { is_mounted = true; has_channel = channel })

unfoldable pub refresh_unless : ℤ → Bool × Tab → Tab
refresh_unless now (true, t) = t
refresh_unless now (false, t) = (refresh_session now t).1

unfoldable pub start_from : ℤ → Option SessionSnapshot → Tab → Tab
start_from now none t = (refresh_session now t).1
start_from now (some s) t = refresh_unless now (apply_peer_snapshot now s t)

unfoldable pub continue_start : ℤ → Startup → Tab → Tab
continue_start now (asking_peers (some answer)) t =
    let t' = set_startup started t in if t.is_mounted then start_from now answer t' else t'
continue_start now p t = t

-- The rest of the first effect
unfoldable pub start_resumed : ℤ → Tab → Tab
start_resumed now t = continue_start now t.startup t

-- The cleanup of the first effect
unfoldable pub unmounted : Tab → Tab
unmounted t = abort_authorized_requests (
    clear_retry_timer
      (resolve_peer_waiters none (record t { is_mounted = false; has_channel = false })))

-- The callback of the timer for a retry
unfoldable pub retry_timer_fired : ℤ → Tab → Tab
retry_timer_fired now t = elim t.retry_timer [
  | none ↦ t
  | some delay ↦ (refresh_session now (clear_retry_timer t)).1
]

-- The timer of the second effect, which is set while a session is shown
unfoldable pub refresh_timer_fired : ℤ → Tab → Tab
refresh_timer_fired now t = (refresh_session now t).1

unfoldable pub refresh_if_short : ℤ → Option Authenticated → Tab → Tab
refresh_if_short now none t = t
refresh_if_short now (some a) t =
    if leb_ℤ (a.access_expires_at -ℤ now) (pos min_access_validity_ms)
    then (refresh_session now t).1
    else t

-- refreshWhenVisible(), with the visibility of the document
unfoldable pub became_visible : ℤ → Bool → Tab → Tab
became_visible now visible t =
    if not visible || t.logout_intent then t else refresh_if_short now (authenticated? t.session) t
