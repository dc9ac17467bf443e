-- ===== src/Api/Overview/Snapshot/Tests.antt =====
-- An overview of a device with one module for frontend/src/lib/api/overview.ts.
use stechbaza_iot.Prelude.{List, String, [], none, refl, some, true, ◌∷◌, ◌≡◌}
use stechbaza_iot.Api.Access.Answers.{
  is_permission_code, one_of, parse_nullable_role, parse_organization_access, parse_platform_role,
  rows_or,
}
use stechbaza_iot.Api.Access.Fields.{
  is_uuid, require, require_record, required_date_time, required_string, required_uuid,
  uuid_pattern,
}
use stechbaza_iot.Api.Answers.{require_list}
use stechbaza_iot.Api.Diagnostics.{parse_diagnostics}
use stechbaza_iot.Api.Equipment.{parse_equipment_target}
use stechbaza_iot.Api.Equipment.Passport.{equipment_state}
use stechbaza_iot.Api.Errors.{ok, traverse}
use stechbaza_iot.Api.Inventory.{
  Device, boolean_value, elapsed_seconds, matching_id, matching_if, nullable, nullable_date,
  parse_availability, parse_device, positive_integer,
}
use stechbaza_iot.Api.Overview.{
  Overview, age_of, channel_supported, is_coherent_freshness, is_typed, limits_of, one_string,
  parse_freshness, parse_limits, parse_reading, strings, text_among, unique,
}
use stechbaza_iot.Api.Overview.Modules.{
  capability_of, channel_key, find_capability, keyed_reading, keys_of_channels, keys_of_modules,
  module_allowed, module_commands, parse_capability, parse_channel, parse_module, read_channel,
  reading_of, same_texts,
}
use stechbaza_iot.Api.Overview.Snapshot.{
  add_readings, all_capabilities, all_modules, all_readings, assignment_ids, capability_codes,
  capability_ids, device_commands, module_codes, parse_overview,
}
use stechbaza_iot.Api.Overview.Snapshot.Commands.{IsOverview, parse_overview-IsOverview}
use stechbaza_iot.Host.Sample.{sample}
use stechbaza_iot.Js.Number.{is_finite, nat, num_le, safe_integer?}
use stechbaza_iot.Js.Set.{is_distinct, set_of}
use stechbaza_iot.Js.Value.{
  Fields, Value, arr, bool, end, field, get, items, null, num, obj, str, strict_eq,
}

abbrev fields_of : List (String × Value) → Fields
fields_of [] = end
fields_of ((k, v) ∷ rest) = field k v (fields_of rest)

abbrev list_of : List Value → Value
list_of l = arr (items l)

abbrev unit_id : String
unit_id = "22222222-2222-4222-8222-222222222222"

abbrev nine : String
nine = "2026-10-05T09:00:00Z"

abbrev rights : List String
rights = "device.read" ∷ "capability.read" ∷ "telemetry.read" ∷ "command.execute" ∷ []

abbrev texts : List String → List Value
texts [] = []
texts (s ∷ rest) = str s ∷ texts rest

abbrev module_value : Value
module_value = obj (
    fields_of (
      ("capability_id", str unit_id)
      ∷ ("code", str "vfd")
      ∷ ("supported", bool true)
      ∷ (
        "channels",
        list_of (
            obj (
              fields_of (
                ("unit", str "Hz")
                ∷ ("supports_series", bool true)
                ∷ ("key", str "speed")
                ∷ ("source", str "values")
                ∷ ("data_type", str "number")
                ∷ []))
            ∷ []),
      )
      ∷ ("command_types", list_of (texts ("start" ∷ "stop" ∷ [])))
      ∷ ("allowed_commands", list_of (texts ("stop" ∷ [])))
      ∷ ("assignment_id", str unit_id)
      ∷ []))

abbrev device_value : Value
device_value = obj (
    fields_of (
      ("id", str unit_id)
      ∷ ("site_id", str unit_id)
      ∷ ("name", str "n")
      ∷ ("uid", str "KR-1")
      ∷ ("device_type", str "vfd")
      ∷ ("lifecycle_status", str "active")
      ∷ ("last_seen_at", null)
      ∷ ("created_at", str nine)
      ∷ ("updated_at", str nine)
      ∷ []))

abbrev overview_fields : Fields
overview_fields = fields_of (
    ("device", device_value)
    ∷ (
      "access",
      obj (
          fields_of (
            ("organization_id", str unit_id)
            ∷ ("permissions", list_of (texts rights))
            ∷ ("platform_role", str "user")
            ∷ ("organization_role", null)
            ∷ [])),
    )
    ∷ (
      "telemetry_freshness",
      obj (
          fields_of (
            ("status", str "fresh")
            ∷ ("reason", str "recent")
            ∷ ("received_at", str nine)
            ∷ ("reported_at", null)
            ∷ ("received_age_seconds", num (nat 2))
            ∷ ("stale_after_seconds", num (nat 30))
            ∷ [])),
    )
    ∷ (
      "capabilities",
      list_of (
          obj (fields_of (("id", str unit_id) ∷ ("code", str "vfd") ∷ ("name", str "Drive") ∷ []))
          ∷ []),
    )
    ∷ (
      "readings",
      list_of (
          obj (
            fields_of (
              ("key", str "speed")
              ∷ ("status", str "fresh")
              ∷ ("unit", str "Hz")
              ∷ ("value", num (nat 40))
              ∷ []))
          ∷ []),
    )
    ∷ ("state_readings", list_of [])
    ∷ ("modules", list_of (module_value ∷ []))
    ∷ ("allowed_commands", list_of (texts ("stop" ∷ [])))
    ∷ ("command_types", list_of (texts ("start" ∷ "stop" ∷ [])))
    ∷ ("generated_at", str nine)
    ∷ (
      "availability",
      obj (
          fields_of (
            ("device_id", str unit_id)
            ∷ ("uid", str "KR-1")
            ∷ ("online", bool true)
            ∷ ("timeout_seconds", num (nat 90))
            ∷ ("seconds_since_seen", num (nat 2))
            ∷ ("last_seen_at", str nine)
            ∷ [])),
    )
    ∷ [])

abbrev drive_device : Device
drive_device = record {
  id = unit_id;
  site_id = unit_id;
  name = "n";
  uid = "KR-1";
  device_type = "vfd";
  lifecycle_status = "active";
  last_seen_at = none;
  created_at = nine;
  updated_at = nine;
}

abbrev overview : Overview
overview = record {
  equipment_target = none;
  equipment_state = str "legacy";
  frequency_limits = none;
  allowed_commands = "stop" ∷ [];
  generated_at = nine;
  device = drive_device;
  availability = record {
    device_id = unit_id;
    uid = "KR-1";
    online = true;
    last_seen_at = some nine;
    timeout_seconds = 90;
    seconds_since_seen = some (nat 2);
  };
  freshness = record {
    status = "fresh";
    reason = "recent";
    received_at = some nine;
    reported_at = none;
    received_age_seconds = some (nat 2);
    stale_after_seconds = 30;
  };
  diagnostics = none;
  modules =
      record {
        assignment_id = unit_id;
        code = "vfd";
        name = "Drive";
        supported = true;
        channels =
            (
              record {
                key = "speed";
                source = "values";
                data_type = "number";
                unit = str "Hz";
                supports_series = true;
              },
              record { status = "fresh"; value = num (nat 40) },
            )
            ∷ [];
        commands = "start" ∷ "stop" ∷ [];
        allowed_commands = "stop" ∷ [];
      }
      ∷ [];
}

overview-parsed : parse_overview (obj overview_fields) drive_device unit_id ≡ ok overview
unfolding parse_overview all_modules parse_module get require_record parse_device required_uuid
    is_uuid nullable_date nullable required_date_time matching_if matching_id require
    parse_organization_access parse_platform_role parse_nullable_role rows_or is_permission_code
    one_of set_of parse_freshness is_finite num_le positive_integer safe_integer? required_string
    uuid_pattern require_list parse_diagnostics equipment_state parse_equipment_target traverse
    boolean_value parse_availability elapsed_seconds add_readings all_capabilities all_readings
    assignment_ids capability_codes capability_ids device_commands module_codes age_of capability_of
    channel_key channel_supported find_capability is_coherent_freshness is_typed keyed_reading
    keys_of_channels keys_of_modules limits_of module_allowed module_commands one_string
    parse_capability parse_channel parse_limits parse_reading read_channel reading_of same_texts
    strings text_among unique is_distinct strict_eq
overview-parsed = refl

parse_overview-IsOverview_example : IsOverview unit_id overview_fields overview
parse_overview-IsOverview_example =
    parse_overview-IsOverview overview_fields drive_device unit_id overview overview-parsed
