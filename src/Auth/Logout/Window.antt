-- ===== src/Auth/Logout/Window.antt =====
-- For how long frontend/src/features/auth-coordination.ts sees a logout.
use stechbaza_iot.Prelude.{
  String, arith, dec_le, dec_lt, false, inl, inr, none, some, true, ◌+◌, ◌∙◌, ◌≡◌, ◌≤◌, ◌⊎◌,
}
use stechbaza_iot.Auth.Channel.{read_integer, read_string}
use stechbaza_iot.Auth.Logout.{
  LogoutMarker, Storage, clear_logout_marker, json, marker_of, marker_value, parse_logout_marker,
  read_marker, read_recent_logout_marker, record_logout_marker, stale, storage_available, with_item,
}
use stechbaza_iot.Js.Number.{int, integer?, magnitude, max_safe, safe_integer?}
use stechbaza_iot.Js.Value.{get, str}
use stechbaza_iot.Prelude.Int.{neg_part, negsuc, pos, pos_part, ℤ, ◌+ℤ◌, ◌<ℤ◌, ◌≤ℤ◌}

pub safe_integer?-int : (z : ℤ) → magnitude z ≤ max_safe → safe_integer? (int z) ≡ some z
unfolding safe_integer? integer?
safe_integer?-int (pos n) h = ground arith
safe_integer?-int (negsuc n) h = ground arith

-- A number that JSON writes and reads as it is.
abbrev pub IsSafe : ℤ → Type 0
IsSafe z = magnitude z ≤ max_safe

-- The marker of the time `at` is in force at the time `now`.
abbrev pub IsRecent : ℤ → ℤ → Type 0
IsRecent at now = (at ≤ℤ now +ℤ pos 60000) × (now <ℤ at +ℤ pos 300000)

-- It is not yet, or no longer.
abbrev pub IsOutside : ℤ → ℤ → Type 0
IsOutside at now = (now +ℤ pos 60000 <ℤ at) ⊎ (at +ℤ pos 300000 ≤ℤ now)

abbrev pub HasStorage : Storage → Type 0
HasStorage s =
    (storage_available s ≡ true)
    × (s.has_window ≡ true)
    × (s.set_works ≡ true)
    × (s.remove_works ≡ true)

-- What a test of the time says.
stale-false :
    (now : ℤ) (m : LogoutMarker)
    → m.issued_at ≤ℤ now +ℤ pos 60000
    → now <ℤ m.expires_at
    → stale now m ≡ false
unfolding stale
stale-false now m h k = ground arith

stale-true :
    (now : ℤ) (m : LogoutMarker)
    → (now +ℤ pos 60000 <ℤ m.issued_at) ⊎ (m.expires_at ≤ℤ now)
    → stale now m ≡ true
unfolding stale
stale-true now m (inl h) = ground arith
stale-true now m (inr h) = ground arith

abbrev marker_at : ℤ → String → LogoutMarker
marker_at at nonce = record { issued_at = at; expires_at = at +ℤ pos 300000; nonce = nonce }

parse_logout_marker-marker_value :
    (m : LogoutMarker)
    → IsSafe m.issued_at
    → IsSafe m.expires_at
    → read_string (str m.nonce) 128 ≡ some m.nonce
    → parse_logout_marker (some (json (marker_value m))) ≡ some m
unfolding parse_logout_marker marker_value get read_integer marker_of
parse_logout_marker-marker_value m h k e =
    rw (safe_integer?-int m.issued_at h, safe_integer?-int m.expires_at k, e)

IsRecent-cases : (at now : ℤ) → IsRecent at now ⊎ IsOutside at now
IsRecent-cases at now =
    elim (dec_le (pos_part at + neg_part (now +ℤ pos 60000))
      (pos_part (now +ℤ pos 60000) + neg_part at)) [
        | no late ↦ inr (inl (omega arith))
        | yes early ↦
            elim (dec_lt (pos_part now + neg_part (at +ℤ pos 300000))
              (pos_part (at +ℤ pos 300000) + neg_part now)) [
                | yes soon ↦ inl (early, soon)
                | no over ↦ inr (inr (omega arith))
              ]
      ]

-- The storage after a logout at a time, in a tab of that id.
logged_out : ℤ → String → Storage → Storage
logged_out at nonce s = with_item (some (json (marker_value (marker_at at nonce)))) s

record_logout_marker_lem :
    (s : Storage) (at : ℤ) (nonce : String)
    → HasStorage s
    → record_logout_marker at nonce s ≡ logged_out at nonce s
unfolding record_logout_marker logged_out
record_logout_marker_lem s at nonce (available, _, sets, _) = rw (available, sets)

read_logged_out :
    (s : Storage) (at now : ℤ) (nonce : String)
    → HasStorage s
    → IsSafe at
    → IsSafe (at +ℤ pos 300000)
    → read_string (str nonce) 128 ≡ some nonce
    → read_recent_logout_marker now (logged_out at nonce s)
      ≡ read_marker now (some (marker_at at nonce)) (logged_out at nonce s)
unfolding read_recent_logout_marker logged_out with_item storage_available
read_logged_out s at now nonce (available, _, _, _) safe safe_end e =
    rw (available, parse_logout_marker-marker_value (marker_at at nonce) safe safe_end e)

logged_out-HasStorage :
    (s : Storage) (at : ℤ) (nonce : String) → HasStorage s → HasStorage (logged_out at nonce s)
unfolding logged_out with_item storage_available
logged_out-HasStorage s at nonce h = h

read_marker-recent :
    (now : ℤ) (m : LogoutMarker) (s : Storage)
    → stale now m ≡ false
    → read_marker now (some m) s ≡ (some m.issued_at, s)
unfolding read_marker
read_marker-recent now m s e = rw e

read_marker-stale :
    (now : ℤ) (m : LogoutMarker) (s : Storage)
    → HasStorage s
    → stale now m ≡ true
    → read_marker now (some m) s ≡ (none, with_item none s)
unfolding read_marker clear_logout_marker
read_marker-stale now m s (_, window, _, removes) e = rw (e, window, removes)

-- A logout that is recorded at a time is seen at each later one for five minutes, and not after
-- them: until then a reading returns the time and leaves the marker, and from then on it returns
-- null and removes it. A time that lies more than a minute ahead of the clock is removed likewise.
pub read_recent_logout_marker-record :
    (s : Storage) (at now : ℤ) (nonce : String)
    → HasStorage s
    → IsSafe at
    → IsSafe (at +ℤ pos 300000)
    → read_string (str nonce) 128 ≡ some nonce
    → let t = record_logout_marker at nonce s in
      (IsRecent at now × (read_recent_logout_marker now t ≡ (some at, t)))
      ⊎ (IsOutside at now × (read_recent_logout_marker now t ≡ (none, with_item none t)))
read_recent_logout_marker-record s at now nonce storage safe safe_end e =
    rw (record_logout_marker_lem s at nonce storage) (elim (IsRecent-cases at now) [
      | inl recent ↦ inl (
        recent,
        read_logged_out s at now nonce storage safe safe_end e
            ∙ read_marker-recent now (marker_at at nonce) _ (stale-false now _ recent.0 recent.1),
      )
      | inr outside ↦ inr (
        outside,
        read_logged_out s at now nonce storage safe safe_end e
            ∙ read_marker-stale now (marker_at at nonce) _
                (logged_out-HasStorage s at nonce storage) (stale-true now _ outside),
      )
    ])
