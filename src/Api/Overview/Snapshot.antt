-- ===== src/Api/Overview/Snapshot.antt =====
-- frontend/src/lib/api/overview.ts: the whole answer on a device.
pub mod Commands
pub mod Tests
use stechbaza_iot.Prelude.{
  List, String, [], all, if◌then◌else◌, is_some, length, not, some, str_eq, ◌&&◌, ◌++◌, ◌==◌, ◌∷◌,
}
use stechbaza_iot.Api.Access.Answers.{parse_organization_access}
use stechbaza_iot.Api.Access.Fields.{required_date_time}
use stechbaza_iot.Api.Diagnostics.{parse_diagnostics}
use stechbaza_iot.Api.Equipment.{parse_equipment_target}
use stechbaza_iot.Api.Equipment.Passport.{equipment_state}
use stechbaza_iot.Api.Errors.{Result, ok, traverse, ◌>>=◌, ◌>>◌}
use stechbaza_iot.Api.Inventory.{Device, matching_id, parse_availability, parse_device}
use stechbaza_iot.Api.Overview.{
  Capability, Freshness, Module, Overview, array, object, overview_path, parse_freshness,
  parse_limits, refuse_unless, strings, unique,
}
use stechbaza_iot.Api.Overview.Modules.{
  first_of, keyed_reading, keys_of_modules, module_allowed, module_commands, parse_capability,
  parse_module, same_texts,
}
use stechbaza_iot.Host.{Host}
use stechbaza_iot.Js.Text.{member}
use stechbaza_iot.Js.Value.{Fields, Value, get, is_nullish, str}

abbrev read_permissions : List String
read_permissions = "device.read" ∷ "capability.read" ∷ "telemetry.read" ∷ []

capability_ids : List Capability → List String
capability_ids [] = []
capability_ids (c ∷ rest) = c.id ∷ capability_ids rest

capability_codes : List Capability → List String
capability_codes [] = []
capability_codes (c ∷ rest) = c.code ∷ capability_codes rest

assignment_ids : List Module → List String
assignment_ids [] = []
assignment_ids (m ∷ rest) = m.assignment_id ∷ assignment_ids rest

module_codes : List Module → List String
module_codes [] = []
module_codes (m ∷ rest) = m.code ∷ module_codes rest

module _ ⦃h : Host⦄ where
  -- The loop over one list of readings
  add_readings : String → List (String × Value) → List Value → Result (List (String × Value))
  unfolding keyed_reading
  add_readings source readings [] = ok readings
  add_readings source readings (raw ∷ rest) = do
    (key, item) ← keyed_reading source raw
    refuse_unless (not (member key (first_of readings))) "unique readings"
    add_readings source (readings ++ (key, item) ∷ []) rest

  all_readings : Fields → Result (List (String × Value))
  unfolding add_readings
  all_readings fields = do
    values ← array (get fields "readings")
    first ← add_readings "values" [] values
    states ← array (get fields "state_readings")
    add_readings "state" first states

  all_capabilities : Fields → Result (List Capability)
  unfolding parse_capability capability_ids capability_codes unique
  all_capabilities fields = do
    rows ← array (get fields "capabilities")
    capabilities ← traverse parse_capability rows
    unique (capability_ids capabilities)
    unique (capability_codes capabilities)
    ok capabilities

  all_modules :
      List Capability
      → List (String × Value)
      → Freshness
      → List String
      → Value
      → Result (List Module)
  unfolding parse_module assignment_ids module_codes keys_of_modules unique
  all_modules capabilities readings freshness permissions value = do
    rows ← array value
    modules ← traverse (parse_module capabilities readings freshness permissions) rows
    unique (assignment_ids modules)
    unique (module_codes modules)
    unique (keys_of_modules modules)
    refuse_unless
        (length modules == length capabilities
          && all (λ key. member key (keys_of_modules modules)) (first_of readings))
        "assigned channels only"
    ok modules

  -- The commands of the device are those of its modules.
  pub device_commands : Fields → List Module → Result (List String)
  unfolding strings unique same_texts module_commands module_allowed
  device_commands fields modules = do
    allowed ← strings (get fields "allowed_commands")
    types ← strings (get fields "command_types")
    unique allowed
    unique types
    refuse_unless
        (same_texts types (module_commands modules) && same_texts allowed (module_allowed modules))
        "consistent command permissions"
    ok allowed

  -- parseOverview(value, expected, organizationId)
  pub parse_overview : Value → Device → String → Result Overview
  unfolding all_capabilities all_readings all_modules device_commands parse_limits
  parse_overview value expected organization_id = do
    fields ← object value
    device ← parse_device (get fields "device") (some expected.site_id) (some expected.id)
    matching_id device.uid expected.uid overview_path
    access ← parse_organization_access (get fields "access") organization_id
    refuse_unless (all (λ p. member p access.permissions) read_permissions)
        "overview read permissions"
    freshness ← parse_freshness (get fields "telemetry_freshness")
    capabilities ← all_capabilities fields
    readings ← all_readings fields
    modules ← all_modules capabilities readings freshness access.permissions (get fields "modules")
    allowed ← device_commands fields modules
    limits ← parse_limits (get fields "frequency_limits")
    diagnostics ← parse_diagnostics (get fields "diagnostics")
    refuse_unless (not (is_some diagnostics && str_eq freshness.status "missing"))
        "diagnostics without telemetry"
    target ← parse_equipment_target (get fields "equipment_target")
    let state = get fields "equipment_state"
    let shown_state = if is_nullish state then str "legacy" else state
    equipment_state shown_state
    generated_at ← required_date_time fields "generated_at" overview_path
    availability ← parse_availability (get fields "availability") device.id device.uid
    ok (record {
      equipment_target = target;
      equipment_state = shown_state;
      frequency_limits = limits;
      allowed_commands = allowed;
      generated_at = generated_at;
      device = device;
      availability = availability;
      freshness = freshness;
      diagnostics = diagnostics;
      modules = modules;
    })
