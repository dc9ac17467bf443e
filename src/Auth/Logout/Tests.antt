-- ===== src/Auth/Logout/Tests.antt =====
-- A logout of frontend/src/features/auth-coordination.ts in a browser tab.
use stechbaza_iot.Prelude.{arith, false, none, refl, some, true, ◌≡◌, ◌⊎◌}
use stechbaza_iot.Auth.Channel.{read_string}
use stechbaza_iot.Auth.Logout.{
  Storage, garbled, read_recent_logout_marker, record_logout_marker, storage_available, with_item,
}
use stechbaza_iot.Auth.Logout.Window.{IsOutside, IsRecent, read_recent_logout_marker-record}
use stechbaza_iot.Host.Sample.{sample}
use stechbaza_iot.Js.Text.{trim, utf16_length}
use stechbaza_iot.Prelude.Int.{pos, ◌+ℤ◌}

abbrev browser : Storage
browser = record {
  has_window = true;
  probe_works = true;
  set_works = true;
  remove_works = true;
  logout_item = some garbled;
}

-- A private window that refuses every write keeps what it has.
refused :
    read_recent_logout_marker
      (pos 7)
      (record_logout_marker (pos 5) "tab" (record browser { probe_works = false }))
    ≡ (none, record browser { probe_works = false })
unfolding read_recent_logout_marker record_logout_marker storage_available
refused = refl

read_recent_logout_marker-record_example :
    let t = record_logout_marker (pos 1000) "tab-7" browser in
    (IsRecent (pos 1000) (pos 300999)
      × (read_recent_logout_marker (pos 300999) t ≡ (some (pos 1000), t)))
    ⊎ (IsOutside (pos 1000) (pos 300999)
        × (read_recent_logout_marker (pos 300999) t ≡ (none, with_item none t)))
unfolding storage_available read_string trim utf16_length ◌+ℤ◌
read_recent_logout_marker-record_example =
    read_recent_logout_marker-record browser (pos 1000) (pos 300999) "tab-7"
      (refl, refl, refl, refl) (ground arith) (ground arith) refl
