-- ===== src/Api/Equipment/Passport.antt =====
-- frontend/src/lib/api/equipment.ts: the passport of the equipment of a controller.
pub mod Answer
pub mod Verified
pub mod Tests
use stechbaza_iot.Prelude.{
  Bool, List, String, [], any, false, if◌then◌else◌, leb, length, not, str_eq, true, ℕ, ◌&&◌, ◌||◌,
  ◌∷◌,
}
use stechbaza_iot.Api.Access.Fields.{
  require, require_record, required_date_time, required_string, required_uuid,
}
use stechbaza_iot.Api.Answers.{each, require_list, unless_null, unless_nullish}
use stechbaza_iot.Api.Equipment.{equipment_path, hash_of, revision_of}
use stechbaza_iot.Api.Errors.{Result, ok, traverse, ◌>>=◌, ◌>>◌}
use stechbaza_iot.Api.Inventory.{Device, matching_id}
use stechbaza_iot.Api.Readiness.{InstallationReadiness, parse_readiness}
use stechbaza_iot.Host.{Host}
use stechbaza_iot.Host.Conversion.{number_of, string_of}
use stechbaza_iot.Js.Checks.{is_integer_in, is_truthy, number_where, or_value, text_in}
use stechbaza_iot.Js.Number.{Number, is_finite, nat, num_eq, num_le, num_lt}
use stechbaza_iot.Js.Set.{is_distinct, set_of}
use stechbaza_iot.Js.Text.{member}
use stechbaza_iot.Js.Value.{
  Fields, Value, get, is_bool, is_nat, is_null, is_text, is_true, is_undefined, null, num, str,
  strict_eq,
}
use stechbaza_iot.Prelude.Int.{pos}

abbrev pub equipment_states : List String
equipment_states = "legacy" ∷ "awaiting" ∷ "mismatch" ∷ "stale" ∷ "incompatible" ∷ "verified" ∷ []

abbrev pub binding_fields : List String
binding_fields =
    "module_id" ∷ "binding_id" ∷ "revision" ∷ "binding_generation" ∷ "profile_id"
    ∷ "profile_version" ∷ "profile_hash" ∷ "driver_id" ∷ "driver_version" ∷ []

abbrev module_kinds : List String
module_kinds = "vfd" ∷ "pressure_sensor" ∷ "digital_input" ∷ "relay" ∷ "other" ∷ []

-- `{ ...data, can_install, readiness, firmware_control_capability, commissioned_control_mode }`
pub record EquipmentPassport : Type 0 where
  pub data_fields : Fields
  pub can_install : Bool
  pub readiness : InstallationReadiness
  pub firmware_control_capability : Value
  pub commissioned_control_mode : Value

-- A finite number above 0
is_positive : Value → Bool
is_positive v = number_where (λ x. is_finite x && num_lt (nat 0) x) v

-- typeof min === "number" && … && 0 <= min && max <= 100 && min < max
pub are_limits : Value → Value → Bool
are_limits (num lo) (num hi) =
    is_finite lo && is_finite hi && num_le (nat 0) lo && num_le hi (nat 100) && num_lt lo hi
are_limits lo hi = false

-- list.includes(number)
is_one_of : List ℕ → Number → Bool
is_one_of list x = any (λ n. num_eq x (nat n)) list

-- keys.some((key) => report[key] !== manifest[key])
pub same_binding : List String → Fields → Fields → Bool
same_binding [] report manifest = true
same_binding (key ∷ rest) report manifest =
    strict_eq (get report key) (get manifest key) && same_binding rest report manifest

module _ ⦃h : Host⦄ where
  abbrev pub refuse_unless : Bool → String → Result (Unit {0})
  refuse_unless test expected = require test equipment_path expected

  -- record(value)
  abbrev pub equipment_record : Value → Result Fields
  equipment_record v = require_record v equipment_path "equipment object"

  -- equipmentState(value)
  unfoldable pub equipment_state : Value → Result (Unit {0})
  equipment_state v = refuse_unless (text_in equipment_states v) "equipment state"

  check_report : Fields → Result (Unit {0})
  check_report fields = do
    hash_of (get fields "configuration_hash")
    refuse_unless (is_nat (get fields "command_protocol") 3 && is_bool (get fields "compatible"))
        "equipment protocol"

  -- binding(value, report)
  pub binding : Value → Bool → Result Fields
  unfolding check_report
  binding value report = do
    fields ← equipment_record value
    required_uuid fields "module_id" equipment_path
    required_uuid fields "binding_id" equipment_path
    each (λ key. revision_of (get fields key))
        ("revision" ∷ "binding_generation" ∷ "profile_version" ∷ "driver_version" ∷ [])
    each (λ key. required_string fields key equipment_path) ("profile_id" ∷ "driver_id" ∷ [])
    hash_of (get fields "profile_hash")
    if report then check_report fields else ok tt
    ok fields

  installation_id : Device → Value → Result String
  installation_id device raw = do
    item ← equipment_record raw
    site ← required_uuid item "site_id" equipment_path
    matching_id site device.site_id equipment_path
    required_string item "name" equipment_path
    required_uuid item "id" equipment_path

  -- The body of the loop over the nameplate
  check_rating : Fields → String → Result (Unit {0})
  unfolding is_positive
  check_rating motor key =
      if not (str_eq key "rated_frequency_hz") && is_null (get motor key)
      then ok tt
      else refuse_unless (is_positive (get motor key)) "motor nameplate"

  check_motor : Value → Result (Unit {0})
  unfolding check_rating
  check_motor v = if is_null v then ok tt else do
    motor ← equipment_record v
    each (check_rating motor)
        ("rated_frequency_hz" ∷ "rated_current_a" ∷ "rated_voltage_v" ∷ "rated_power_kw" ∷ [])

  module_id : Device → List String → Value → Result String
  unfolding check_motor
  module_id device installations raw = do
    item ← equipment_record raw
    owner ← required_uuid item "device_id" equipment_path
    matching_id owner device.id equipment_path
    unless_nullish required_date_time item "retired_at" equipment_path
    installation ← required_uuid item "installation_id" equipment_path
    refuse_unless (member installation installations) "module installation"
    each (λ key. required_string item key equipment_path)
        ("slot" ∷ "name" ∷ "manufacturer" ∷ "series" ∷ "model" ∷ [])
    each (λ key. unless_null required_string item key equipment_path)
        ("serial_number" ∷ "hardware_revision" ∷ "software_revision" ∷ [])
    refuse_unless (member (string_of (get item "kind")) module_kinds) "module kind"
    check_motor (get item "motor")
    required_uuid item "id" equipment_path

  -- The settings of the serial bus
  is_bus : Fields → Bool
  unfolding is_one_of
  is_bus bus =
      is_text (get bus "transport") "modbus_rtu"
      && is_integer_in (pos 1) (pos 247) (get bus "address")
      && is_one_of (1200 ∷ 2400 ∷ 4800 ∷ 9600 ∷ 19200 ∷ 38400 ∷ 57600 ∷ 115200 ∷ [])
          (number_of (get bus "baud"))
      && member (string_of (get bus "parity")) ("none" ∷ "even" ∷ "odd" ∷ [])
      && is_one_of (1 ∷ 2 ∷ []) (number_of (get bus "stop_bits"))

  pub check_desired : Device → List String → Value → Result (Unit {0})
  unfolding is_bus are_limits
  check_desired device modules v = if is_null v then ok tt else do
    desired ← equipment_record v
    manifest ← binding (get desired "manifest") false
    hash_of (get desired "configuration_hash")
    required_date_time desired "created_at" equipment_path
    required_uuid desired "actor_user_id" equipment_path
    refuse_unless (is_nat (get manifest "version") 1) "desired module"
    owner ← required_uuid manifest "module_id" equipment_path
    refuse_unless (member owner modules) "desired module"
    uid ← required_string manifest "device_uid" equipment_path
    matching_id uid device.uid equipment_path
    limits ← equipment_record (get manifest "frequency_limits")
    refuse_unless (are_limits (get limits "min_hz") (get limits "max_hz")) "installation limits"
    bus ← equipment_record (get manifest "bus")
    refuse_unless (is_bus bus) "bus settings"

  pub check_reported : Value → Result (Unit {0})
  check_reported v = if is_null v then ok tt else (do binding v true; ok tt)

  -- What a passport must say to be "verified"
  pub check_confirmation : Fields → Result (Unit {0})
  unfolding same_binding
  check_confirmation fields = do
    refuse_unless (not (is_null (get fields "desired") || is_null (get fields "reported")))
        "confirmed equipment"
    desired ← equipment_record (get fields "desired")
    manifest ← equipment_record (get desired "manifest")
    report ← equipment_record (get fields "reported")
    refuse_unless
        (is_truthy (get report "compatible")
          && strict_eq (get report "configuration_hash") (get desired "configuration_hash")
          && same_binding binding_fields report manifest)
        "matching equipment confirmation"

  pub check_state : Fields → Result (Unit {0})
  unfolding check_confirmation
  check_state fields =
      if is_text (get fields "configuration_state") "verified"
      then check_confirmation fields
      else ok tt

  pub check_lists : Device → Fields → List Value → List Value → Result (List String)
  unfolding installation_id module_id
  check_lists device fields installations modules = do
    refuse_unless (leb (length installations) 100 && leb (length modules) 32)
        "bounded equipment list"
    installation_ids ← traverse (installation_id device) installations
    module_ids ← traverse (module_id device (set_of installation_ids)) modules
    refuse_unless (is_distinct installation_ids && is_distinct module_ids) "unique equipment ids"
    ok module_ids
