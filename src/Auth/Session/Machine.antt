-- ===== src/Auth/Session/Machine.antt =====
-- frontend/src/features/auth-session.tsx: the tab as a machine, which takes its events in any order.
pub mod Consistent
pub mod Leaving
pub mod Marked
pub mod Shut
pub mod Background
pub mod Quiet
pub mod SignedOut
pub mod Cores
pub mod RefreshCores
pub mod Moves
pub mod Lifecycle
pub mod Restoring
mod Tests
use stechbaza_iot.Prelude.{Bool, List, String, [], false, if◌then◌else◌, none, ℕ, ◌==◌, ◌∷◌}
use stechbaza_iot.Api.Errors.{Failure, Result}
use stechbaza_iot.Auth.Channel.{ClearedReason, refresh}
use stechbaza_iot.Auth.Logout.{Storage}
use stechbaza_iot.Auth.Session.Actions.{
  cancel_logout, clear_session, get_access_token, login_answered, login_started, logout,
  logout_answered, message_received,
}
use stechbaza_iot.Auth.Session.Startup.{
  became_visible, mounted, refresh_timer_fired, retry_timer_fired, start_resumed, unmounted,
}
use stechbaza_iot.Auth.Session.Refresh.{
  lock_granted, lock_refused, peers_answered, refresh_answered, refresh_resumed, refresh_session,
}
use stechbaza_iot.Auth.Session.State.{
  Tab, TokenResponse, answer_refresh, answer_startup, no_refresh, not_started, restoring,
}
use stechbaza_iot.Host.{Host}
use stechbaza_iot.Js.Value.{Value}
use stechbaza_iot.Prelude.Int.{pos, ℤ}

pub data Event : Type 0 where
  mounts : ℤ → Bool → Event
  start_resumes : ℤ → Event
  startup_window_ends : Event
  receives : ℤ → Value → Event
  refresh_asked : ℤ → Event
  lock_granted_at : ℤ → Event
  lock_refused_with : Failure → Event
  refresh_window_ends : Event
  peers_answered_at : ℤ → Event
  refresh_answers : ℤ → Result TokenResponse → Event
  refresh_resumes : ℤ → Event
  login_starts : Event
  login_answers : ℤ → TokenResponse → String → Event
  logs_out : ℤ → Event
  logout_answers : ℤ → Result (Unit {0}) → Event
  cancels_logout : ℤ → Event
  clears : ℤ → ClearedReason → Event
  asks_token : ℤ → ℕ → Event
  request_starts : ℕ → Event
  request_ends : ℕ → Event
  retry_timer_fires : ℤ → Event
  refresh_timer_fires : ℤ → Event
  shows : ℤ → Bool → Event
  unmounts : Event
  -- another tab writes to localStorage
  storage_changes : Storage → Event

unfoldable pub new_tab : ℤ → Storage → Tab
new_tab now storage = record {
  session = restoring now;
  shown = restoring now;
  access_token = none;
  is_mounted = false;
  has_channel = false;
  latest_peer = none;
  last_event_at = pos 0;
  refresh = no_refresh;
  is_logout_running = false;
  logout_intent = false;
  logout_fallback = none;
  active_requests = [];
  startup = not_started;
  retry_timer = none;
  retry_attempt = 0;
  refresh_not_before = pos 0;
  storage = storage;
  posted = [];
}

unfoldable pub without : ℕ → List ℕ → List ℕ
without n [] = []
without n (x ∷ xs) = let rest = without n xs in if x == n then rest else x ∷ rest

module _ ⦃h : Host⦄ (me nonce : String) where
  unfoldable pub step : Event → Tab → Tab
  step (mounts now channel) t = mounted me nonce now channel t
  step (start_resumes now) t = start_resumed now t
  step startup_window_ends t = record t { startup = answer_startup none t.startup }
  step (receives now value) t = message_received me nonce now value t
  step (refresh_asked now) t = (refresh_session now t).1
  step (lock_granted_at now) t = lock_granted me now t
  step (lock_refused_with failure) t = lock_refused failure t
  step refresh_window_ends t = record t { refresh = answer_refresh none t.refresh }
  step (peers_answered_at now) t = peers_answered now t
  step (refresh_answers now r) t = refresh_answered me now r t
  step (refresh_resumes now) t = (refresh_resumed me nonce now t).1
  step login_starts t = login_started t
  step (login_answers now response name) t = login_answered me now response name t
  step (logs_out now) t = logout now t
  step (logout_answers now r) t = (logout_answered me nonce now r t).1
  step (cancels_logout now) t = cancel_logout now t
  step (clears now reason) t = clear_session me nonce reason now t
  step (asks_token now minimum) t = (get_access_token now minimum t).1
  step (request_starts n) t = record t { active_requests = n ∷ t.active_requests }
  step (request_ends n) t = record t { active_requests = without n t.active_requests }
  step (retry_timer_fires now) t = retry_timer_fired now t
  step (refresh_timer_fires now) t = refresh_timer_fired now t
  step (shows now visible) t = became_visible now visible t
  step unmounts t = unmounted t
  step (storage_changes s) t = record t { storage = s }

  unfoldable pub run : List Event → Tab → Tab
  run [] t = t
  run (e ∷ es) t = run es (step e t)
