-- ===== src/Api/Onboarding/Tests.antt =====
-- A connection that is ready for work, for frontend/src/lib/api/onboarding.ts.
use stechbaza_iot.Prelude.{String, [], false, none, refl, some, true, ◌≡◌}
use stechbaza_iot.Api.Access.Fields.{
  is_uuid, require, require_record, required_date_time, required_string, required_uuid,
  uuid_pattern,
}
use stechbaza_iot.Api.Answers.{or_null, require_list}
use stechbaza_iot.Api.Errors.{ok}
use stechbaza_iot.Api.Inventory.{nullable}
use stechbaza_iot.Api.Onboarding.{
  Connection, check_fields, check_inviting, check_ready, connection_of, connection_state_of,
  if_claimed, parse_connection,
}
use stechbaza_iot.Api.Onboarding.Ready.{IsConnection, parse_connection-IsConnection}
use stechbaza_iot.Api.Readiness.{parse_readiness}
use stechbaza_iot.Host.Conversion.{string_of}
use stechbaza_iot.Host.Sample.{sample}
use stechbaza_iot.Js.Value.{Value, arr, bool, end, field, get, nil, null, obj, str}

abbrev unit_id : String
unit_id = "22222222-2222-4222-8222-222222222222"

abbrev nine : String
nine = "2026-10-05T09:00:00Z"

abbrev ready_value : Value
ready_value =
    obj (field "state" (str "ready") (field "title" (str "t") (field "blockers" (arr nil) end)))

abbrev connection_value : Value
connection_value = obj (
    field "controller_id" (str unit_id) (
      field "state" (str "claimed") (
        field "device_id" (str unit_id) (
          field "site_id" (str unit_id) (
            field "connection_state" (str "online") (
              field "telemetry_received_at" (str nine) (
                field "organization_id" (str unit_id) (
                  field "can_invite_installer" (bool true) (
                    field "readiness" ready_value (
                      field "serial_number" (str "s") (
                        field "hardware_model" (str "m") (
                          field "last_contact_at" (str nine)
                            (field "firmware_version" null end)))))))))))))

abbrev ready_connection : Connection
ready_connection = record {
  readiness = record { state = str "ready"; title = "t"; next_action = none; blockers = [] };
  can_install = false;
  organization_id = some unit_id;
  can_invite_installer = true;
  controller_id = unit_id;
  serial_number = "s";
  hardware_model = "m";
  is_claimed = true;
  device_id = some unit_id;
  site_id = some unit_id;
  last_contact_at = some nine;
  firmware_version = none;
  activation_required = true;
  permanent_login = none;
  network_transport = str "wifi";
  last_contact_transport = null;
  telemetry_received_at = some nine;
  connection_state = str "online";
  initial_equipment_editable = false;
}

connection-parsed : parse_connection connection_value unit_id ≡ ok ready_connection
unfolding parse_connection connection_of connection_state_of check_fields check_inviting check_ready
    if_claimed or_null nullable parse_readiness require_list required_date_time required_uuid
    required_string is_uuid uuid_pattern require require_record string_of get
connection-parsed = refl

parse_connection-IsConnection_example : IsConnection connection_value unit_id ready_connection
parse_connection-IsConnection_example =
    parse_connection-IsConnection connection_value unit_id ready_connection connection-parsed
