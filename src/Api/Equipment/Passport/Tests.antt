-- ===== src/Api/Equipment/Passport/Tests.antt =====
-- A verified passport for frontend/src/lib/api/equipment.ts.
use stechbaza_iot.Prelude.{String, [], false, none, refl, true, ◌∷◌, ◌≡◌}
use stechbaza_iot.Api.Access.Fields.{
  is_uuid, require, require_record, required_date_time, required_string, required_uuid,
}
use stechbaza_iot.Api.Answers.{each, require_list, unless_null, unless_nullish}
use stechbaza_iot.Api.Equipment.{hash_of, hash_pattern, revision_of}
use stechbaza_iot.Api.Equipment.Passport.{
  EquipmentPassport, binding, check_confirmation, check_desired, check_lists, check_reported,
  check_state, equipment_state, installation_id, module_id,
}
use stechbaza_iot.Api.Equipment.Passport.Answer.{parse_equipment_passport, passport_of}
use stechbaza_iot.Api.Equipment.Passport.Verified.{
  IsConfirmed, is_claimed, parse_equipment_passport-IsConfirmed,
}
use stechbaza_iot.Api.Errors.{ok, traverse}
use stechbaza_iot.Api.Inventory.{Device, matching_id}
use stechbaza_iot.Api.Readiness.{parse_readiness, unknown_readiness}
use stechbaza_iot.Host.Conversion.{number_of, string_of}
use stechbaza_iot.Host.Sample.{sample}
use stechbaza_iot.Js.Checks.{is_integer_in}
use stechbaza_iot.Js.Number.{is_finite, nat, num_eq, safe_integer?}
use stechbaza_iot.Js.Set.{is_distinct, set_of}
use stechbaza_iot.Js.Value.{
  Fields, arr, bool, end, field, get, items, null, num, obj, str, strict_eq,
}

abbrev unit_id : String
unit_id = "22222222-2222-4222-8222-222222222222"

abbrev hash_text : String
hash_text = "0123456789abcdef0123456789abcdef0123456789abcdef0123456789abcdef"

abbrev controller : Device
controller = record {
  id = unit_id;
  site_id = unit_id;
  name = "n";
  uid = "uid";
  device_type = "vfd";
  lifecycle_status = "active";
  last_seen_at = none;
  created_at = "2026-10-05T08:40:00Z";
  updated_at = "2026-10-05T08:40:00Z";
}

-- The part of a manifest and of a report that is the same
abbrev binding_value : Fields → Fields
binding_value rest = field "module_id" (str unit_id) (
    field "binding_id" (str unit_id) (
      field "revision" (num (nat 1)) (
        field "binding_generation" (num (nat 1)) (
          field "profile_id" (str "p") (
            field "profile_version" (num (nat 1)) (
              field "profile_hash" (str hash_text)
                (field "driver_id" (str "v") (field "driver_version" (num (nat 1)) rest))))))))

abbrev manifest_value : Fields
manifest_value = binding_value (
    field "version" (num (nat 1)) (
      field "device_uid" (str "uid") (
        field "frequency_limits"
          (obj (field "min_hz" (num (nat 0)) (field "max_hz" (num (nat 50)) end)))
          (field "bus"
            (obj (
              field "transport" (str "modbus_rtu") (
                field "address" (num (nat 5)) (
                  field "baud" (num (nat 9600))
                    (field "parity" (str "even") (field "stop_bits" (num (nat 1)) end))))))
            end))))

abbrev desired_value : Fields
desired_value = field "manifest" (obj manifest_value) (
    field "configuration_hash" (str hash_text)
      (field "created_at" (str "2026-10-05T09:00:00Z") (field "actor_user_id" (str unit_id) end)))

abbrev reported_value : Fields
reported_value = binding_value (
    field "configuration_hash" (str hash_text)
      (field "command_protocol" (num (nat 3)) (field "compatible" (bool true) end)))

abbrev passport_fields : Fields
passport_fields = field "device_id" (str unit_id) (
    field "controller_uid" (str "uid") (
      field "configuration_state" (str "verified") (
        field "firmware_version" null (
          field "installations"
            (arr (
              items (
                obj (
                  field "site_id" (str unit_id)
                    (field "name" (str "n") (field "id" (str unit_id) end)))
                ∷ [])))
            (field "modules"
              (arr (
                items (
                  obj (
                    field "device_id" (str unit_id) (
                      field "installation_id" (str unit_id) (
                        field "slot" (str "s") (
                          field "name" (str "n") (
                            field "manufacturer" (str "m") (
                              field "series" (str "s") (
                                field "model" (str "m") (
                                  field "serial_number" null (
                                    field "hardware_revision" null (
                                      field "software_revision" null (
                                        field "kind" (str "vfd") (
                                          field "motor" null
                                            (field "id" (str unit_id) end)))))))))))))
                  ∷ [])))
              (field "desired" (obj desired_value) (field "reported" (obj reported_value) end)))))))

abbrev passport : EquipmentPassport
passport = record {
  data_fields = passport_fields;
  can_install = false;
  readiness = unknown_readiness;
  firmware_control_capability = str "read_only";
  commissioned_control_mode = null;
}

passport-parsed : parse_equipment_passport (obj passport_fields) controller ≡ ok passport
unfolding parse_equipment_passport check_lists installation_id module_id check_desired
    check_reported check_state check_confirmation passport_of binding string_of number_of hash_of
    revision_of matching_id equipment_state each unless_null unless_nullish traverse set_of
    is_distinct safe_integer? hash_pattern num_eq is_finite is_integer_in strict_eq parse_readiness
    is_uuid required_date_time required_uuid required_string require require_record require_list get
passport-parsed = refl

passport-claimed : is_claimed passport ≡ true
unfolding get
passport-claimed = refl

parse_equipment_passport-IsConfirmed_example : IsConfirmed passport_fields
parse_equipment_passport-IsConfirmed_example =
    parse_equipment_passport-IsConfirmed (obj passport_fields) controller passport passport-parsed
      passport-claimed
