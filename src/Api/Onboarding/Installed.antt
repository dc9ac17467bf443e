-- ===== src/Api/Onboarding/Installed.antt =====
-- frontend/src/lib/api/onboarding.ts: the equipment of a connection, and its recovery key.
use stechbaza_iot.Prelude.{
  Bool, List, Option, String, [], all, false, if◌then◌else◌, leb, length, none, not, some, ◌&&◌,
  ◌||◌, ◌∷◌,
}
use stechbaza_iot.Api.Access.Fields.{invalid, require_record, required_string, required_uuid}
use stechbaza_iot.Api.Answers.{or_null, require_list}
use stechbaza_iot.Api.Equipment.Passport.{equipment_state}
use stechbaza_iot.Api.Errors.{Result, ok, ◌>>=◌, ◌>>◌}
use stechbaza_iot.Host.{Host}
use stechbaza_iot.Js.Checks.{is_record}
use stechbaza_iot.Js.Regex.{Regex, class, repeat, test}
use stechbaza_iot.Js.Value.{Fields, Value, get, is_null, is_text, obj, str}
use stechbaza_iot.Api.Onboarding.{connect_path, refuse_unless}

-- The drive of a connection's equipment
pub record InstalledModule : Type 0 where
  pub id : String
  pub manufacturer : String
  pub series : String
  pub model : String
  pub hardware_revision : Option String

pub record ConnectionEquipment : Type 0 where
  pub drive : Option InstalledModule
  pub configuration_state : Value
  pub configured : Bool

-- item.kind === "vfd" && item.retired_at === null
abbrev is_drive : Value → Bool
is_drive (obj fields) = is_text (get fields "kind") "vfd" && is_null (get fields "retired_at")
is_drive v = false

pub drives_of : List Value → List Value
drives_of [] = []
drives_of (v ∷ rest) = let more = drives_of rest in if is_drive v then v ∷ more else more

module _ ⦃h : Host⦄ where
  installed_module : Fields → Result InstalledModule
  installed_module item = do
    id ← required_uuid item "id" connect_path
    manufacturer ← required_string item "manufacturer" connect_path
    series ← required_string item "series" connect_path
    model ← required_string item "model" connect_path
    revision ← or_null required_string item "hardware_revision" connect_path
    ok (record {
      id = id;
      manufacturer = manufacturer;
      series = series;
      model = model;
      hardware_revision = revision;
    })

  -- The one drive, if there is any
  drive_of : String → List Value → Result (Option InstalledModule)
  drive_of device_id [] = ok none
  drive_of device_id (v ∷ rest) = do
    refuse_unless (leb (length rest) 0) "active controller drive"
    item ← require_record v connect_path "drive identity"
    refuse_unless (is_text (get item "device_id") device_id) "drive identity"
    drive ← installed_module item
    ok (some drive)

  -- parseConnectionEquipment(value, deviceId, controllerId)
  pub parse_connection_equipment : Value → String → String → Result ConnectionEquipment
  unfolding drives_of
  parse_connection_equipment value device_id controller_id = do
    fields ← require_record value connect_path "controller equipment identity"
    refuse_unless
        (is_text (get fields "device_id") device_id
          && is_text (get fields "controller_id") controller_id)
        "controller equipment identity"
    modules ← require_list (get fields "modules") connect_path "controller equipment identity"
    refuse_unless (leb (length modules) 32) "controller equipment identity"
    refuse_unless (all is_record modules) "equipment module"
    drive ← drive_of device_id (drives_of modules)
    let desired = get fields "desired"
    refuse_unless (is_null desired || is_record desired) "saved equipment configuration"
    equipment_state (get fields "configuration_state")
    refuse_unless (not (is_text (get fields "configuration_state") "verified" && is_null desired))
        "verified equipment configuration"
    ok (record {
      drive = drive;
      configuration_state = get fields "configuration_state";
      configured = not (is_null desired);
    })

-- /^[A-Za-z0-9_-]{43}$/
recovery_pattern : Regex
recovery_pattern =
    repeat 43
      (class ((b'A', b'Z') ∷ (b'a', b'z') ∷ (b'0', b'9') ∷ (b'_', b'_') ∷ (b'-', b'-') ∷ []))

module _ ⦃h : Host⦄ where
  recovery_key_of : Value → Result String
  recovery_key_of (str s) =
      if test recovery_pattern s then ok s else invalid "/api/v1/auth/recovery" "recovery key"
  recovery_key_of v = invalid "/api/v1/auth/recovery" "recovery key"

  -- parseRecovery(value)
  pub parse_recovery : Value → Result String
  parse_recovery value = do
    fields ← require_record value "/api/v1/auth/recovery" "recovery key"
    recovery_key_of (get fields "recovery_key")
