-- ===== src/Auth/Session/State.antt =====
-- frontend/src/features/auth-session-runtime.ts: what a tab keeps of its session, and the small
-- helpers of frontend/src/features/auth-session.tsx that every change uses. A callback runs to its
-- next `await` at one time, `now`, which stands for each Date.now() in it.
use stechbaza_iot.Prelude.{
  Bool, List, Option, String, [], false, if◌then◌else◌, is_some, none, some, true, ℕ, ◌&&◌, ◌==◌,
  ◌∷◌,
}
use stechbaza_iot.Api.Errors.{Failure}
use stechbaza_iot.Auth.Channel.{AuthChannelMessage, ClearedReason, SessionOrigin, SessionSnapshot}
use stechbaza_iot.Auth.Logout.{Storage, read_recent_logout_marker}
use stechbaza_iot.Auth.Timing.{is_snapshot_usable}
use stechbaza_iot.Host.{Host}
use stechbaza_iot.Js.Text.{trim}
use stechbaza_iot.Prelude.Int.{ltb_ℤ, neg_part, pos_part, ℤ}

abbrev pub min_access_validity_ms : ℕ
min_access_validity_ms = 30000

abbrev pub min_peer_token_validity_ms : ℕ
min_peer_token_validity_ms = 5000

abbrev pub max_timer_delay_ms : ℕ
max_timer_delay_ms = 2147483647

pub data Source : Type 0 where
  from_login from_refresh from_peer : Source

-- AuthenticatedSession; `refresh_message` is the text of a refresh that failed, where the state of
-- the refresh is "degraded", and null where it is "ready".
pub record Authenticated : Type 0 where
  pub email : Option String
  pub access_expires_at : ℤ
  pub session_expires_at : ℤ
  pub source : Source
  pub refresh_message : Option String

-- AuthSessionSnapshot; the reason of an anonymous session is null for "none".
pub data Session : Type 0 where
  restoring : ℤ → Session
  anonymous : Option ClearedReason → Session
  authenticated : Authenticated → Session
  unavailable : String → ℤ → Session
  logging_out : ℤ → Option String → Session
  logout_failed : String → Option ℤ → Option String → Session

-- BrowserLoginResponse: the fields that the provider reads.
pub record TokenResponse : Type 0 where
  pub access_token : String
  pub expires_in : ℕ
  pub session_expires_in : ℕ

pub record LogoutFallback : Type 0 where
  pub session : Authenticated
  pub access_token : String

-- RefreshOutcome, or the error of the refresh.
pub data Outcome : Type 0 where
  peer : SessionSnapshot → Outcome
  api : TokenResponse → ℤ → Outcome
  failed : Failure → Outcome

-- A promise of requestPeerSnapshot: pending, or resolved by its one call of `complete`.
abbrev pub Waiter : Type 0
Waiter = Option (Option SessionSnapshot)

-- Where the one refresh of a tab stands, with the `baselineEventAt` that it began with.
pub data RefreshPhase : Type 0 where
  no_refresh : RefreshPhase
  -- the lock of the tabs is asked for
  locking : ℤ → RefreshPhase
  -- the other tabs are asked
  asking : ℤ → Waiter → RefreshPhase
  -- browserRefresh() is running
  fetching : ℤ → RefreshPhase
  -- coordinatedBrowserRefresh has ended, and refreshSession is to go on
  ended : ℤ → Outcome → RefreshPhase

-- The first effect of the provider: it asks the other tabs, and refreshes if none answers.
pub data Startup : Type 0 where
  not_started : Startup
  asking_peers : Waiter → Startup
  started : Startup

-- The refs of AuthSessionProvider, with the messages that it has posted, the last one first.
pub record Tab : Type 0 where
  pub session : Session
  -- the state of React, which the pages show
  pub shown : Session
  pub access_token : Option String
  pub is_mounted : Bool
  pub has_channel : Bool
  pub latest_peer : Option SessionSnapshot
  pub last_event_at : ℤ
  pub refresh : RefreshPhase
  pub is_logout_running : Bool
  pub logout_intent : Bool
  pub logout_fallback : Option LogoutFallback
  -- the requests whose controllers are in activeRequestControllersRef
  pub active_requests : List ℕ
  pub startup : Startup
  -- the delay of the timer that is set
  pub retry_timer : Option ℕ
  pub retry_attempt : ℕ
  pub refresh_not_before : ℤ
  pub storage : Storage
  pub posted : List AuthChannelMessage

-- normalizeEmail(value)
unfoldable pub normalize_email : ⦃h : Host⦄ → String → String
normalize_email ⦃h⦄ value = h.lower (trim value)

-- sessionOrigin(session)
unfoldable pub session_origin : Authenticated → SessionOrigin
session_origin a = elim a.source [ from_login ↦ SessionOrigin.login | _ ↦ SessionOrigin.refresh ]

-- isNewUsablePeerSnapshot(snapshot, baselineEventAt)
unfoldable pub is_new_usable_peer_snapshot : Option SessionSnapshot → ℤ → ℤ → Bool
is_new_usable_peer_snapshot none baseline now = false
is_new_usable_peer_snapshot (some s) baseline now =
    ltb_ℤ baseline s.issued_at && is_snapshot_usable s now min_peer_token_validity_ms

-- session.status === "authenticated" ? session : …
abbrev pub authenticated? : Session → Option Authenticated
authenticated? (authenticated a) = some a
authenticated? s = none

-- The status is "logging-out" or "logout-failed".
abbrev pub is_leaving : Session → Bool
is_leaving (logging_out at email) = true
is_leaving (logout_failed message at email) = true
is_leaving s = false

-- The email of an authenticated session.
unfoldable pub email_of : Session → Option String
email_of (authenticated a) = a.email
email_of s = none

unfoldable pub or_else {ℓ} : {A : Type ℓ} → Option A → Option A → Option A
or_else none b = b
or_else (some a) b = some a

unfoldable pub commit_session : Session → Tab → Tab
commit_session next t = record t { session = next; shown = if t.is_mounted then next else t.shown }

unfoldable pub post_message : AuthChannelMessage → Tab → Tab
post_message m t = record t { posted = if t.has_channel then m ∷ t.posted else t.posted }

unfoldable pub clear_retry_timer : Tab → Tab
clear_retry_timer t = record t { retry_timer = none }

-- `complete(snapshot)`: only the first call counts.
abbrev pub complete : Option SessionSnapshot → Waiter → Waiter
complete snapshot none = some snapshot
complete snapshot (some answer) = some answer

unfoldable pub answer_refresh : Option SessionSnapshot → RefreshPhase → RefreshPhase
answer_refresh snapshot (asking baseline w) = asking baseline (complete snapshot w)
answer_refresh snapshot p = p

unfoldable pub answer_startup : Option SessionSnapshot → Startup → Startup
answer_startup snapshot (asking_peers w) = asking_peers (complete snapshot w)
answer_startup snapshot p = p

unfoldable pub resolve_peer_waiters : Option SessionSnapshot → Tab → Tab
resolve_peer_waiters snapshot t = record t {
  refresh = answer_refresh snapshot t.refresh;
  startup = answer_startup snapshot t.startup;
}

unfoldable pub abort_authorized_requests : Tab → Tab
abort_authorized_requests t = record t { active_requests = [] }

-- readRecentLogoutMarker() !== null
unfoldable pub recent_logout : ℤ → Tab → Bool × Tab
recent_logout now t =
    let (at, s) = read_recent_logout_marker now t.storage in (is_some at, record t { storage = s })

-- A time that is 0, which `||` takes for missing
abbrev pub is_zero : ℤ → Bool
is_zero z = pos_part z == 0 && neg_part z == 0
