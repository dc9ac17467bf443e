-- ===== src/Auth/Logout.antt =====
-- frontend/src/features/auth-coordination.ts: the marker that a logout leaves in localStorage.
pub mod Window
mod Tests
use stechbaza_iot.Prelude.{Bool, Option, String, if◌then◌else◌, none, some, ℕ, ◌&&◌, ◌*◌, ◌||◌}
use stechbaza_iot.Auth.Channel.{max_future_clock_skew_ms, read_integer, read_string}
use stechbaza_iot.Js.Number.{int}
use stechbaza_iot.Js.Value.{Value, end, field, get, num, obj, str}
use stechbaza_iot.Prelude.Int.{leb_ℤ, ltb_ℤ, pos, ℤ, ◌+ℤ◌}

abbrev pub logout_marker_ttl_ms : ℕ
logout_marker_ttl_ms = 5 * 60000

pub record LogoutMarker : Type 0 where
  pub issued_at : ℤ
  pub expires_at : ℤ
  pub nonce : String

-- What an item of localStorage holds: a text that JSON.parse reads, or another one.
pub data Item : Type 0 where
  json : Value → Item
  garbled : Item

-- The storage of a tab, which other tabs share. A call throws where its flag is false.
pub record Storage : Type 0 where
  pub has_window : Bool
  pub probe_works : Bool
  pub set_works : Bool
  pub remove_works : Bool
  -- kerumo.auth.logout.v1
  pub logout_item : Option Item

unfoldable pub with_item : Option Item → Storage → Storage
with_item item s = record s { logout_item = item }

-- storageAvailable(): the probe is written and removed again, under a key of its own.
unfoldable pub storage_available : Storage → Bool
storage_available s = s.has_window && s.probe_works

-- JSON.stringify(marker), as JSON.parse reads it
pub marker_value : LogoutMarker → Value
marker_value m = obj (
    field "issuedAt" (num (int m.issued_at))
      (field "expiresAt" (num (int m.expires_at)) (field "nonce" (str m.nonce) end)))

unfoldable pub marker_of : Option ℤ → Option ℤ → Option String → Option LogoutMarker
marker_of (some issued_at) (some expires_at) (some nonce) =
    some (record { issued_at = issued_at; expires_at = expires_at; nonce = nonce })
marker_of a b c = none

-- parseLogoutMarker(value); an empty text is among the garbled ones.
unfoldable pub parse_logout_marker : Option Item → Option LogoutMarker
parse_logout_marker (some (json (obj fields))) =
    marker_of (read_integer (get fields "issuedAt")) (read_integer (get fields "expiresAt"))
      (read_string (get fields "nonce") 128)
parse_logout_marker item = none

-- recordLogoutMarker(issuedAt), where createAuthTabId() returns `nonce`
pub record_logout_marker : ℤ → String → Storage → Storage
record_logout_marker issued_at nonce s =
    let marker : LogoutMarker = record {
      issued_at = issued_at;
      expires_at = issued_at +ℤ pos logout_marker_ttl_ms;
      nonce = nonce;
    } in
    if storage_available s && s.set_works
    then with_item (some (json (marker_value marker))) s
    else s

-- clearLogoutMarker()
unfoldable pub clear_logout_marker : Storage → Storage
clear_logout_marker s = if s.has_window && s.remove_works then with_item none s else s

unfoldable pub stale : ℤ → LogoutMarker → Bool
stale now m = ltb_ℤ (now +ℤ pos max_future_clock_skew_ms) m.issued_at || leb_ℤ m.expires_at now

unfoldable pub read_marker : ℤ → Option LogoutMarker → Storage → Option ℤ × Storage
read_marker now none s = (none, clear_logout_marker s)
read_marker now (some m) s =
    if stale now m then (none, clear_logout_marker s) else (some m.issued_at, s)

-- readRecentLogoutMarker(nowMs)
unfoldable pub read_recent_logout_marker : ℤ → Storage → Option ℤ × Storage
read_recent_logout_marker now s =
    if storage_available s then read_marker now (parse_logout_marker s.logout_item) s else (none, s)
