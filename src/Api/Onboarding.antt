-- ===== src/Api/Onboarding.antt =====
-- frontend/src/lib/api/onboarding.ts: the connection of a controller by its QR code.
pub mod Installed
pub mod Ready
pub mod Tests
use stechbaza_iot.Prelude.{
  Bool, List, Option, String, [], all, false, if◌then◌else◌, is_some, leb, length, none, not, some,
  true, ◌&&◌, ◌||◌, ◌∷◌,
}
use stechbaza_iot.Api.Access.Fields.{
  invalid, require, require_record, required_date_time, required_string, required_uuid,
}
use stechbaza_iot.Api.Answers.{or_null, require_list}
use stechbaza_iot.Api.Equipment.Passport.{equipment_state}
use stechbaza_iot.Api.Errors.{Result, ok, ◌>>=◌, ◌>>◌}
use stechbaza_iot.Api.Inventory.{nullable}
use stechbaza_iot.Api.Readiness.{InstallationReadiness, parse_readiness}
use stechbaza_iot.Host.{Host}
use stechbaza_iot.Host.Conversion.{string_of}
use stechbaza_iot.Js.Checks.{is_record, is_truthy, or_value}
use stechbaza_iot.Js.Regex.{Regex, class, repeat, test}
use stechbaza_iot.Js.Text.{member}
use stechbaza_iot.Js.Value.{
  Fields, Value, bool, get, is_bool, is_null, is_nullish, is_text, is_true, is_undefined, null, obj,
  str,
}

abbrev pub connect_path : String
connect_path = "/api/v1/connect"

abbrev pub transports : List String
transports = "wifi" ∷ "lte" ∷ []

abbrev pub connection_states : List String
connection_states =
    "not_connected" ∷ "transport_mismatch" ∷ "bootstrap_connected" ∷ "online" ∷ "offline" ∷ []

-- The three values that are kept as they came are those that the tests look at with String(value).
pub record Connection : Type 0 where
  pub readiness : InstallationReadiness
  pub can_install : Bool
  pub organization_id : Option String
  pub can_invite_installer : Bool
  pub controller_id : String
  pub serial_number : String
  pub hardware_model : String
  pub is_claimed : Bool
  pub device_id : Option String
  pub site_id : Option String
  pub last_contact_at : Option String
  pub firmware_version : Option String
  pub activation_required : Bool
  pub permanent_login : Option String
  pub network_transport : Value
  pub last_contact_transport : Value
  pub telemetry_received_at : Option String
  pub connection_state : Value
  pub initial_equipment_editable : Bool

-- value === undefined || typeof value === "boolean"
abbrev is_flag : Value → Bool
is_flag v = is_undefined v || is_bool v

-- value === false ? false : true
abbrev is_not_false : Value → Bool
is_not_false (bool b) = b
is_not_false v = true

-- value.connection_state ?? (value.last_contact_at ? "bootstrap_connected" : "not_connected")
connection_state_of : Fields → Value
connection_state_of fields = or_value (get fields "connection_state") (
    if is_truthy (get fields "last_contact_at")
    then str "bootstrap_connected"
    else str "not_connected")

module _ ⦃h : Host⦄ where
  abbrev pub refuse_unless : Bool → String → Result (Unit {0})
  refuse_unless test expected = require test connect_path expected

  -- is_claimed ? read(value, key, path) : null
  if_claimed : Bool → Fields → String → Result (Option String)
  if_claimed true fields key = do value ← required_uuid fields key connect_path; ok (some value)
  if_claimed false fields key = ok none

  -- !organizationId, of a text that is not empty
  check_inviting : Fields → Bool → Option String → Result (Unit {0})
  check_inviting fields is_claimed organization =
      refuse_unless
        (not (is_true (get fields "can_invite_installer")) || (is_claimed && is_some organization))
        "installer invitation scope"

  check_ready : InstallationReadiness → Bool → Value → Result (Unit {0})
  check_ready readiness is_claimed state =
      refuse_unless
        (not (is_text readiness.state "ready")
          || (is_claimed && is_text state "online" && leb (length readiness.blockers) 0))
        "confirmed installation readiness"

  check_fields : Fields → Bool → Value → Value → Value → Result (Unit {0})
  check_fields fields is_claimed transport contact state = do
    refuse_unless
        (is_claimed || (is_null (get fields "device_id") && is_null (get fields "site_id")))
        "unclaimed controller"
    refuse_unless
        (member (string_of transport) transports
          && (is_null contact || member (string_of contact) transports))
        "controller transport"
    refuse_unless (member (string_of state) connection_states) "controller connection state"
    refuse_unless (not (is_text state "online" && is_nullish (get fields "telemetry_received_at")))
        "live controller telemetry"
    refuse_unless (is_flag (get fields "initial_equipment_editable")) "initial equipment editing"
    refuse_unless (is_flag (get fields "can_install")) "installation permission"
    refuse_unless (is_flag (get fields "can_invite_installer")) "installer invitation permission"

  connection_of : Fields → Bool → Result Connection
  unfolding connection_state_of check_inviting check_ready check_fields
  connection_of fields is_claimed = do
    let transport = or_value (get fields "network_transport") (str "wifi")
    let contact = or_value (get fields "last_contact_transport") null
    let state = connection_state_of fields
    check_fields fields is_claimed transport contact state
    organization ← or_null required_uuid fields "organization_id" connect_path
    check_inviting fields is_claimed organization
    readiness ← parse_readiness (get fields "readiness") connect_path
    check_ready readiness is_claimed state
    controller ← required_uuid fields "controller_id" connect_path
    serial ← required_string fields "serial_number" connect_path
    hardware ← required_string fields "hardware_model" connect_path
    device ← if_claimed is_claimed fields "device_id"
    site ← if_claimed is_claimed fields "site_id"
    contact_at ← nullable required_date_time fields "last_contact_at" connect_path
    firmware ← nullable required_string fields "firmware_version" connect_path
    login_name ← or_null required_string fields "permanent_login" connect_path
    telemetry ← or_null required_date_time fields "telemetry_received_at" connect_path
    ok (record {
      readiness = readiness;
      can_install = is_true (get fields "can_install");
      organization_id = organization;
      can_invite_installer = is_true (get fields "can_invite_installer");
      controller_id = controller;
      serial_number = serial;
      hardware_model = hardware;
      is_claimed = is_claimed;
      device_id = device;
      site_id = site;
      last_contact_at = contact_at;
      firmware_version = firmware;
      activation_required = is_not_false (get fields "activation_required");
      permanent_login = login_name;
      network_transport = transport;
      last_contact_transport = contact;
      telemetry_received_at = telemetry;
      connection_state = state;
      initial_equipment_editable = is_true (get fields "initial_equipment_editable");
    })

  -- parseConnection(value, controllerId)
  pub parse_connection : Value → String → Result Connection
  unfolding connection_of
  parse_connection value controller_id = do
    fields ← require_record value connect_path "controller identity and state"
    refuse_unless
        (is_text (get fields "controller_id") controller_id
          && member (string_of (get fields "state")) ("ready" ∷ "claimed" ∷ []))
        "controller identity and state"
    connection_of fields (is_text (get fields "state") "claimed")
