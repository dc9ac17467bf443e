-- ===== src/Api/Equipment/Passport/Answer.antt =====
-- frontend/src/lib/api/equipment.ts: the whole passport of the equipment.
use stechbaza_iot.Prelude.{[], not, ◌||◌, ◌∷◌}
use stechbaza_iot.Api.Access.Fields.{required_string, required_uuid}
use stechbaza_iot.Api.Answers.{require_list, unless_null, unless_nullish}
use stechbaza_iot.Api.Equipment.{equipment_path}
use stechbaza_iot.Api.Errors.{Result, ok, ◌>>=◌, ◌>>◌}
use stechbaza_iot.Api.Inventory.{Device, matching_id}
use stechbaza_iot.Api.Readiness.{parse_readiness}
use stechbaza_iot.Host.{Host}
use stechbaza_iot.Host.Conversion.{string_of}
use stechbaza_iot.Js.Checks.{or_value}
use stechbaza_iot.Js.Text.{member}
use stechbaza_iot.Js.Value.{
  Fields, Value, get, is_bool, is_null, is_text, is_true, is_undefined, null, str,
}
use stechbaza_iot.Api.Equipment.Passport.{
  EquipmentPassport, refuse_unless, equipment_record, equipment_state, check_desired,
  check_reported, check_state, check_lists,
}

module _ ⦃h : Host⦄ where
  unfoldable pub passport_of : Fields → Result EquipmentPassport
  passport_of fields = do
    refuse_unless (is_undefined (get fields "can_install") || is_bool (get fields "can_install"))
        "installation permission"
    let capability = or_value (get fields "firmware_control_capability") (str "read_only")
    refuse_unless (member (string_of capability) ("read_only" ∷ "bench" ∷ "full" ∷ []))
        "firmware control capability"
    let mode = or_value (get fields "commissioned_control_mode") null
    refuse_unless
        (is_null mode
          || member (string_of mode) ("read_only" ∷ "bench_without_motor" ∷ "extended_test" ∷ []))
        "commissioned control mode"
    readiness ← parse_readiness (get fields "readiness") equipment_path
    refuse_unless
        (not (is_text readiness.state "ready")
          || is_text (get fields "configuration_state") "verified")
        "verified installation readiness"
    ok (record {
      data_fields = fields;
      can_install = is_true (get fields "can_install");
      readiness = readiness;
      firmware_control_capability = capability;
      commissioned_control_mode = mode;
    })

  -- parseEquipmentPassport(value, device)
  unfoldable pub parse_equipment_passport : Value → Device → Result EquipmentPassport
  unfolding equipment_state check_state passport_of
  parse_equipment_passport value device = do
    fields ← equipment_record value
    id ← required_uuid fields "device_id" equipment_path
    matching_id id device.id equipment_path
    uid ← required_string fields "controller_uid" equipment_path
    matching_id uid device.uid equipment_path
    unless_nullish required_uuid fields "controller_id" equipment_path
    equipment_state (get fields "configuration_state")
    unless_null required_string fields "firmware_version" equipment_path
    installations ←
        require_list (get fields "installations") equipment_path "bounded equipment list"
    modules ← require_list (get fields "modules") equipment_path "bounded equipment list"
    module_ids ← check_lists device fields installations modules
    check_desired device module_ids (get fields "desired")
    check_reported (get fields "reported")
    check_state fields
    passport_of fields
