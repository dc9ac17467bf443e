-- ===== src/Api/Overview/Control/Tests.antt =====
-- A drive that may be started, and for how long, for frontend/src/lib/api/overview.ts.
use stechbaza_iot.Prelude.{String, [], arith, false, none, refl, some, true, ◌∷◌, ◌≡◌}
use stechbaza_iot.Api.Overview.{Channel, Overview, Reading}
use stechbaza_iot.Api.Overview.Control.{
  age_now, awaiting_text, control_block_reason, drive_settings, effective_quality, find_channel,
  find_module, has_true, interlock_reason, is_fresh_channel, is_local, is_remote, label_of_state,
  lag_of, module_reason, seconds_between,
}
use stechbaza_iot.Api.Overview.Control.Fresh.{effective_quality-ages}
use stechbaza_iot.Api.Overview.Control.Interlocks.{IsUnblocked, control_block_reason-IsUnblocked}
use stechbaza_iot.Host.Sample.{sample}
use stechbaza_iot.Js.Number.{dyadic, nat, num_eq, num_lt}
use stechbaza_iot.Js.Number.Rounding.{bit_length_from, half_even, round_double}
use stechbaza_iot.Js.Number.Sum.{non_negative, num_add, seconds_of, thousandth}
use stechbaza_iot.Js.Value.{Fields, bool, end, field, get, null, num, str}
use stechbaza_iot.Prelude.Int.{pos, ◌+ℤ◌, ◌-ℤ◌}

abbrev nine : String
nine = "2026-10-05T09:00:00Z"

abbrev drive_id : String
drive_id = "22222222-2222-4222-8222-222222222222"

abbrev lock_channel : String → Channel × Reading
lock_channel key = (
  record {
    key = key;
    source = "state";
    data_type = "boolean";
    unit = null;
    supports_series = false;
  },
  record { status = "fresh"; value = bool true },
)

abbrev settings : Fields
settings = field "run_source" (num (nat 2)) (field "frequency_source" (num (nat 6)) end)

abbrev drive : Overview
drive = record {
  equipment_target = none;
  equipment_state = str "verified";
  frequency_limits = none;
  allowed_commands = [];
  generated_at = nine;
  device = record {
    id = drive_id;
    site_id = drive_id;
    name = "n";
    uid = "KR-1";
    device_type = "vfd";
    lifecycle_status = "active";
    last_seen_at = none;
    created_at = nine;
    updated_at = nine;
  };
  availability = record {
    device_id = drive_id;
    uid = "KR-1";
    online = true;
    last_seen_at = some nine;
    timeout_seconds = 90;
    seconds_since_seen = some (nat 2);
  };
  freshness = record {
    status = "fresh";
    reason = "recent";
    received_at = some nine;
    reported_at = some "2026-10-05T08:40:00Z";
    received_age_seconds = some (nat 2);
    stale_after_seconds = 1300;
  };
  diagnostics = some (record {
    firmware_version = "1";
    uptime_ms = 0;
    reset_reason = "power_on";
    transport = "wifi";
    signal = none;
    last_stop = none;
    program = none;
    vfd_settings = some (some settings);
  });
  modules =
      record {
        assignment_id = drive_id;
        code = "vfd.diagnostics.read";
        name = "Drive";
        supported = true;
        channels =
            lock_channel "vfd_link"
            ∷ lock_channel "vfd_configuration_valid"
            ∷ lock_channel "control_armed"
            ∷ [];
        commands = [];
        allowed_commands = [];
      }
      ∷ [];
}

-- 2 seconds of age, 20 minutes of lag, and 98 or 99 seconds since
drive-startable :
    (control_block_reason drive (nat 98) ≡ null)
    × (control_block_reason drive (nat 99) ≡ str awaiting_text)
unfolding control_block_reason drive_settings is_local is_remote get effective_quality age_now
    lag_of seconds_between seconds_of thousandth half_even round_double bit_length_from num_add
    non_negative num_lt label_of_state module_reason find_module interlock_reason find_channel
    is_fresh_channel has_true ◌-ℤ◌ ◌+ℤ◌ num_eq
drive-startable = (refl, refl)

link-fresh : effective_quality "fresh" drive.freshness (dyadic (pos 391) 2) ≡ "fresh"
unfolding effective_quality age_now lag_of seconds_between seconds_of thousandth half_even
    round_double bit_length_from num_add non_negative num_lt ◌-ℤ◌ ◌+ℤ◌
link-fresh = refl

effective_quality-ages_example :
    effective_quality "fresh" drive.freshness (dyadic (pos 3) 2) ≡ "fresh"
effective_quality-ages_example =
    effective_quality-ages "fresh" drive.freshness 3 391 2 (omega arith) link-fresh

control_block_reason-IsUnblocked_example : IsUnblocked drive (nat 98)
control_block_reason-IsUnblocked_example =
    control_block_reason-IsUnblocked drive (nat 98) drive-startable.0
