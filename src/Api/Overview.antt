-- ===== src/Api/Overview.antt =====
-- frontend/src/lib/api/overview.ts: what a device measures, and what may be sent to it.
pub mod Control
pub mod Modules
pub mod Snapshot
use stechbaza_iot.Prelude.{
  Bool, List, Option, String, [], false, if◌then◌else◌, is_some, none, not, some, str_eq, true, ℕ,
  ◌&&◌, ◌||◌, ◌∷◌,
}
use stechbaza_iot.Api.Access.Fields.{invalid, require, require_record}
use stechbaza_iot.Api.Answers.{require_list}
use stechbaza_iot.Api.Diagnostics.{ControllerDiagnostics}
use stechbaza_iot.Api.Equipment.{EquipmentTarget}
use stechbaza_iot.Api.Equipment.Passport.{are_limits}
use stechbaza_iot.Api.Errors.{Result, ok, traverse, ◌>>=◌, ◌>>◌}
use stechbaza_iot.Api.Inventory.{Availability, Device, nullable_date, positive_integer}
use stechbaza_iot.Api.Programs.{FrequencyLimits}
use stechbaza_iot.Host.{Host}
use stechbaza_iot.Js.Checks.{number_where}
use stechbaza_iot.Js.Number.{Number, is_finite, nat, num_le, safe_integer?}
use stechbaza_iot.Js.Set.{is_distinct}
use stechbaza_iot.Js.Text.{is_empty, member}
use stechbaza_iot.Js.Value.{
  Fields, Value, get, is_bool, is_null, is_nullish, null, num, str, strict_eq,
}

abbrev pub overview_path : String
overview_path = "/api/v1/devices/overview"

abbrev pub qualities : List String
qualities = "fresh" ∷ "stale" ∷ "missing" ∷ "invalid" ∷ []

abbrev reasons : List String
reasons =
    "no_telemetry" ∷ "recent" ∷ "timeout" ∷ "session_changed" ∷ "future_timestamp"
    ∷ "delayed_report" ∷ []

pub record Freshness : Type 0 where
  pub status : String
  pub reason : String
  pub received_at : Option String
  pub reported_at : Option String
  pub received_age_seconds : Option Number
  pub stale_after_seconds : ℕ

pub record Channel : Type 0 where
  pub key : String
  pub source : String
  pub data_type : String
  pub unit : Value
  pub supports_series : Bool

pub record Reading : Type 0 where
  pub status : String
  pub value : Value

pub record Module : Type 0 where
  pub assignment_id : String
  pub code : String
  pub name : String
  pub supported : Bool
  pub channels : List (Channel × Reading)
  pub commands : List String
  pub allowed_commands : List String

pub record Capability : Type 0 where
  pub id : String
  pub code : String
  pub name : String

pub record Overview : Type 0 where
  pub equipment_target : Option EquipmentTarget
  pub equipment_state : Value
  pub frequency_limits : Option FrequencyLimits
  pub allowed_commands : List String
  pub generated_at : String
  pub device : Device
  pub availability : Availability
  pub freshness : Freshness
  pub diagnostics : Option ControllerDiagnostics
  pub modules : List Module

-- "missing" has nothing received; any other was received, at an age.
pub is_coherent_freshness : String → String → Option String → Option Number → Bool
is_coherent_freshness status reason received age =
    if str_eq status "missing"
    then str_eq reason "no_telemetry" && not (is_some received) && not (is_some age)
    else is_some received && is_some age && not (str_eq reason "no_telemetry")

-- a === b, of two tests
abbrev same_test : Bool → Bool → Bool
same_test true b = b
same_test false b = not b

-- channelSupported(channel)
pub channel_supported : Channel → Bool
channel_supported c =
    (str_eq c.source "values" && str_eq c.data_type "number")
    || (str_eq c.source "state" && member c.data_type ("boolean" ∷ "integer" ∷ []))

-- A reading of the type of its channel
is_typed : String → Value → Bool
is_typed data_type value =
    if str_eq data_type "boolean"
    then is_bool value
    else number_where
        (λ x. is_finite x && (not (str_eq data_type "integer") || is_some (safe_integer? x))) value

module _ ⦃h : Host⦄ where
  abbrev pub refuse_unless : Bool → String → Result (Unit {0})
  refuse_unless test expected = require test overview_path expected

  -- record(value), array(value)
  abbrev pub object : Value → Result Fields
  object v = require_record v overview_path "object"

  abbrev pub array : Value → Result (List Value)
  array v = require_list v overview_path "array"

  one_string : Value → Result String
  one_string (str s) = if is_empty s then invalid overview_path "string[]" else ok s
  one_string v = invalid overview_path "string[]"

  -- strings(value)
  pub strings : Value → Result (List String)
  unfolding one_string
  strings v = do items ← array v; traverse one_string items

  -- unique(values)
  pub unique : List String → Result (Unit {0})
  unique values = refuse_unless (is_distinct values) "unique keys"

  pub text_among : List String → Value → String → Result String
  text_among texts (str s) expected =
      if member s texts then ok s else invalid overview_path expected
  text_among texts v expected = invalid overview_path expected

  age_of : Value → Result (Option Number)
  age_of null = ok none
  age_of (num x) =
      if is_finite x && num_le (nat 0) x then ok (some x) else invalid overview_path "received age"
  age_of v = invalid overview_path "received age"

  -- parseFreshness(value)
  pub parse_freshness : Value → Result Freshness
  unfolding text_among age_of is_coherent_freshness
  parse_freshness value = do
    fields ← object value
    status ←
        text_among ("fresh" ∷ "stale" ∷ "missing" ∷ []) (get fields "status")
          "freshness status/reason"
    reason ← text_among reasons (get fields "reason") "freshness status/reason"
    age ← age_of (get fields "received_age_seconds")
    threshold ← positive_integer (get fields "stale_after_seconds") overview_path "stale threshold"
    received ← nullable_date fields "received_at" overview_path
    reported ← nullable_date fields "reported_at" overview_path
    refuse_unless (is_coherent_freshness status reason received age) "coherent freshness"
    refuse_unless (same_test (str_eq status "fresh") (str_eq reason "recent")) "fresh reason"
    ok (record {
      status = status;
      reason = reason;
      received_at = received;
      reported_at = reported;
      received_age_seconds = age;
      stale_after_seconds = threshold;
    })

  -- parseReading(raw, channel)
  pub parse_reading : Value → Channel → Result Reading
  unfolding channel_supported is_typed
  parse_reading raw channel =
      if not (channel_supported channel)
      then ok (record { status = "missing"; value = null })
      else (do
        fields ← object raw
        status ← text_among qualities (get fields "status") "reading status"
        refuse_unless
            (not (str_eq channel.source "values") || strict_eq (get fields "unit") channel.unit)
            "matching unit"
        let value = get fields "value"
        let is_absent = str_eq status "missing" || str_eq status "invalid"
        refuse_unless (not is_absent || is_null value) "missing/invalid must be null"
        refuse_unless (is_absent || is_typed channel.data_type value) "typed finite reading"
        ok (record { status = status; value = value }))

  limits_between : Value → Value → Result (Option FrequencyLimits)
  limits_between (num lo) (num hi) =
      if are_limits (num lo) (num hi)
      then ok (some (record { min_hz = lo; max_hz = hi }))
      else invalid overview_path "frequency limits"
  limits_between lo hi = invalid overview_path "frequency limits"

  pub limits_of : Fields → Result (Option FrequencyLimits)
  unfolding limits_between
  limits_of fields = limits_between (get fields "min_hz") (get fields "max_hz")

  pub parse_limits : Value → Result (Option FrequencyLimits)
  unfolding limits_of
  parse_limits v = if is_nullish v then ok none else (do fields ← object v; limits_of fields)
