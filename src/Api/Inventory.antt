-- ===== src/Api/Inventory.antt =====
-- frontend/src/lib/api/inventory.ts: sites, devices, their presence, and pages of a list.
pub mod Rows
pub mod Queue
mod Tests
use Prim.Native.String
use stechbaza_iot.Prelude.{
  Bool, List, Option, String, if◌then◌else◌, is_some, leb, length, map, none, not, some, str_eq,
  suc, ℕ, ◌&&◌, ◌++◌, ◌||◌,
}
use stechbaza_iot.Api.Access.Fields.{
  invalid, require, require_record, required_date_time, required_string, required_uuid,
}
use stechbaza_iot.Api.Errors.{Result, ok, traverse, ◌>>=◌, ◌>>◌}
use stechbaza_iot.Host.{Host}
use stechbaza_iot.Js.Number.{Number, is_finite, nat, num_le, safe_integer?}
use stechbaza_iot.Js.Set.{is_distinct}
use stechbaza_iot.Js.Text.{is_empty}
use stechbaza_iot.Js.Value.{Fields, Value, arr, bool, elements, get, is_null, null, num}
use stechbaza_iot.Prelude.Int.{pos}

abbrev pub page_size : ℕ
page_size = 20

module _ ⦃h : Host⦄ where
  unfoldable pub matching_id : String → String → String → Result (Unit {0})
  matching_id actual expected path = require (str_eq actual expected) path "matching id / parent id"

  -- `if (expected) matchingId(actual, expected, path)`
  unfoldable pub matching_if : String → Option String → String → Result (Unit {0})
  matching_if actual none path = ok tt
  matching_if actual (some expected) path =
      if is_empty expected then ok tt else matching_id actual expected path

  -- record[key] === null ? null : read(record, key, path)
  unfoldable pub nullable :
      (Fields → String → String → Result String) → Fields → String → String → Result (Option String)
  nullable read fields key path =
      if is_null (get fields key)
      then ok none
      else (do value ← read fields key path; ok (some value))

  unfoldable pub nullable_date : Fields → String → String → Result (Option String)
  nullable_date fields key path = nullable required_date_time fields key path

abbrev sites_path : String
sites_path = "/api/v1/sites"

abbrev devices_path : String
devices_path = "/api/v1/devices"

abbrev availability_path : String → String
availability_path id = String.◌++◌ "/api/v1/devices/" (String.◌++◌ id "/availability")

pub record Site : Type 0 where
  pub id : String
  pub organization_id : String
  pub name : String
  pub code : String
  pub timezone : String
  pub created_at : String
  pub updated_at : String

pub record Device : Type 0 where
  pub id : String
  pub site_id : String
  pub name : String
  pub uid : String
  pub device_type : String
  pub lifecycle_status : String
  pub last_seen_at : Option String
  pub created_at : String
  pub updated_at : String

pub record Availability : Type 0 where
  pub device_id : String
  pub uid : String
  pub online : Bool
  pub last_seen_at : Option String
  pub timeout_seconds : ℕ
  pub seconds_since_seen : Option Number

module _ ⦃h : Host⦄ where
  pub parse_site : Value → Option String → Option String → Result Site
  parse_site value organization_id site_id = do
    fields ← require_record value sites_path "SiteRead"
    id ← required_uuid fields "id" sites_path
    organization ← required_uuid fields "organization_id" sites_path
    name ← required_string fields "name" sites_path
    code ← required_string fields "code" sites_path
    timezone ← required_string fields "timezone" sites_path
    created ← required_date_time fields "created_at" sites_path
    updated ← required_date_time fields "updated_at" sites_path
    matching_if organization organization_id sites_path
    matching_if id site_id sites_path
    ok (record {
      id = id;
      organization_id = organization;
      name = name;
      code = code;
      timezone = timezone;
      created_at = created;
      updated_at = updated;
    })

  unfoldable pub parse_device : Value → Option String → Option String → Result Device
  parse_device value site_id device_id = do
    fields ← require_record value devices_path "DeviceRead"
    id ← required_uuid fields "id" devices_path
    site ← required_uuid fields "site_id" devices_path
    name ← required_string fields "name" devices_path
    uid ← required_string fields "uid" devices_path
    device_type ← required_string fields "device_type" devices_path
    lifecycle ← required_string fields "lifecycle_status" devices_path
    last_seen ← nullable_date fields "last_seen_at" devices_path
    created ← required_date_time fields "created_at" devices_path
    updated ← required_date_time fields "updated_at" devices_path
    matching_if site site_id devices_path
    matching_if id device_id devices_path
    ok (record {
      id = id;
      site_id = site;
      name = name;
      uid = uid;
      device_type = device_type;
      lifecycle_status = lifecycle;
      last_seen_at = last_seen;
      created_at = created;
      updated_at = updated;
    })

  -- The list of a value that is an array.
  abbrev pub rows_of : Value → Option (List Value)
  rows_of (arr xs) = some (elements xs)
  rows_of v = none

  -- The rest of parsePage, once the value is a list: `id` reads the field of a row.
  unfoldable pub page_rows {ℓ} :
      {A : Type ℓ} → (A → String) → Option (List Value) → (Value → Result A) → ℕ → Result (List A)
  page_rows id none parse limit = invalid "/api/v1" "bounded page"
  page_rows id (some rows) parse limit = do
    require (leb (length rows) limit) "/api/v1" "bounded page"
    parsed ← traverse parse rows
    require (is_distinct (map id parsed)) "/api/v1" "unique ids"
    ok parsed

  unfoldable pub parse_page {ℓ} :
      {A : Type ℓ} → (A → String) → Value → (Value → Result A) → ℕ → Result (List A)
  parse_page id value parse limit = page_rows id (rows_of value) parse limit

  -- A safe integer above 0.
  unfoldable pub positive_integer : Value → String → String → Result ℕ
  positive_integer (num x) path expected = elim (safe_integer? x) [
    | some (pos (suc n)) ↦ ok (suc n)
    | _ ↦ invalid path expected
  ]
  positive_integer v path expected = invalid path expected

  -- Null, or a finite number from 0.
  unfoldable pub elapsed_seconds : Value → String → Result (Option Number)
  elapsed_seconds null path = ok none
  elapsed_seconds (num x) path =
      if is_finite x && num_le (nat 0) x then ok (some x) else invalid path "seconds_since_seen"
  elapsed_seconds v path = invalid path "seconds_since_seen"

  -- typeof value === "boolean"
  unfoldable pub boolean_value : Value → String → String → Result Bool
  boolean_value (bool b) path expected = ok b
  boolean_value v path expected = invalid path expected

  unfoldable pub parse_availability : Value → String → String → Result Availability
  parse_availability value id uid = do
    let path = availability_path id
    fields ← require_record value path "DeviceAvailabilityRead"
    online ← boolean_value (get fields "online") path "DeviceAvailabilityRead"
    device_id ← required_uuid fields "device_id" path
    matching_id device_id id path
    actual_uid ← required_string fields "uid" path
    matching_id actual_uid uid path
    seconds ← positive_integer (get fields "timeout_seconds") path "timeout_seconds"
    elapsed ← elapsed_seconds (get fields "seconds_since_seen") path
    last_seen ← nullable_date fields "last_seen_at" path
    require (is_some last_seen || not online) path "online requires last_seen_at"
    ok (record {
      device_id = device_id;
      uid = actual_uid;
      online = online;
      last_seen_at = last_seen;
      timeout_seconds = seconds;
      seconds_since_seen = elapsed;
    })
