-- ===== src/Api/Alarms.antt =====
-- frontend/src/lib/api/alarms.ts: the alarms of a device, their transitions and acknowledgements.
pub mod Coherent
mod Tests
use stechbaza_iot.Prelude.{
  Bool, List, Option, String, [], false, is_some, none, not, some, true, ◌&&◌, ◌+◌, ◌||◌, ◌∷◌,
}
use stechbaza_iot.Api.Access.Fields.{
  require, require_record, required_date_time, required_string, required_uuid,
}
use stechbaza_iot.Api.Answers.{each}
use stechbaza_iot.Api.Errors.{Result, ok, ◌>>=◌, ◌>>◌}
use stechbaza_iot.Api.Inventory.{matching_id, matching_if, nullable, page_size, parse_page}
use stechbaza_iot.Api.Notifications.{id_of}
use stechbaza_iot.Host.{Host}
use stechbaza_iot.Js.Checks.{is_record, is_safe_from, is_truthy, text_in}
use stechbaza_iot.Js.Text.{is_empty}
use stechbaza_iot.Js.Value.{Fields, Value, get, is_null, is_string, is_text}
use stechbaza_iot.Prelude.Int.{pos}

abbrev alarms_path : String
alarms_path = "/api/v1/alarms"

abbrev transition_types : List String
transition_types =
    "raised" ∷ "repeated" ∷ "acknowledged" ∷ "resolved" ∷ "reopened" ∷ "severity_changed" ∷ []

-- AlarmFilters: an empty text filters nothing.
pub record AlarmFilters : Type 0 where
  pub state : String
  pub severity : String
  pub alarm_type : String

-- raw.state === "active" || raw.state === "resolved"
abbrev pub is_alarm_state : Value → Bool
is_alarm_state v = is_text v "active" || is_text v "resolved"

-- (a) !== (b), of two tests
abbrev differ : Bool → Bool → Bool
differ true b = not b
differ false b = b

-- !acknowledged && (actor !== null || raw.acknowledged_by_email !== null || …)
has_stray_author : Option String → Option String → Fields → Bool
has_stray_author acknowledged actor fields =
    not (is_some acknowledged)
    && (is_some actor
        || not (is_null (get fields "acknowledged_by_email"))
        || not (is_null (get fields "acknowledged_by_display_name")))

module _ ⦃h : Host⦄ where
  -- nullableText(record, key)
  nullable_text : Fields → String → Result (Unit {0})
  nullable_text fields key =
      require (is_null (get fields key) || is_string (get fields key)) alarms_path key

  -- parseAlarm(raw, deviceId, alarmId)
  pub parse_alarm : Value → String → Option String → Result Fields
  unfolding has_stray_author
  parse_alarm raw device_id alarm_id = do
    let path = alarms_path
    fields ← require_record raw path "DeviceAlarmRead"
    id ← required_uuid fields "id" path
    matching_if id alarm_id path
    device ← required_uuid fields "device_id" path
    matching_id device device_id path
    each (λ key. required_string fields key path) ("alarm_key" ∷ "alarm_type" ∷ "title" ∷ [])
    require (is_alarm_state (get fields "state")) path "state"
    require
        (is_text (get fields "severity") "warning" || is_text (get fields "severity") "critical")
        path "severity"
    each (λ key. required_date_time fields key path)
        ("first_raised_at" ∷ "last_raised_at" ∷ "created_at" ∷ "updated_at" ∷ [])
    resolved ← nullable required_date_time fields "resolved_at" path
    acknowledged ← nullable required_date_time fields "acknowledged_at" path
    actor ← nullable required_uuid fields "acknowledged_by_user_id" path
    nullable required_uuid fields "last_event_id" path
    each (nullable_text fields)
        ("description" ∷ "acknowledged_by_email" ∷ "acknowledged_by_display_name" ∷ [])
    require (not (differ (is_text (get fields "state") "resolved") (is_some resolved))) path
        "resolved state/time"
    require (not (has_stray_author acknowledged actor fields)) path "acknowledgement snapshot"
    require
        (is_safe_from (pos 1) (get fields "occurrence_count") && is_record (get fields "context"))
        path "count/context"
    ok fields

  -- filters.key && row.key !== filters.key
  mismatch_of : String → Fields → String → Bool
  mismatch_of wanted row key = not (is_empty wanted) && not (is_text (get row key) wanted)

  matches_filters : AlarmFilters → Fields → Bool
  unfolding mismatch_of
  matches_filters filters row = not (
      mismatch_of filters.state row "state"
      || mismatch_of filters.severity row "severity"
      || mismatch_of filters.alarm_type row "alarm_type")

  -- parseAlarmPage(raw, deviceId, filters)
  pub parse_alarm_page : Value → String → AlarmFilters → Result (List Fields)
  parse_alarm_page raw device_id filters = do
    rows ← parse_page id_of raw (λ item. parse_alarm item device_id none) (page_size + 1)
    each (λ row. require (matches_filters filters row) alarms_path "matching filters") rows
    ok rows

  -- `if (organization) matchingId(organization, organizationId, path)`
  own_organization : Option String → String → Result (Unit {0})
  own_organization none organization_id = ok tt
  own_organization (some organization) organization_id =
      matching_id organization organization_id alarms_path

  parse_transition : String → String → Value → Result Fields
  parse_transition alarm_id organization_id item = do
    let path = alarms_path
    fields ← require_record item path "AlarmTransitionRead"
    required_uuid fields "id" path
    alarm ← required_uuid fields "alarm_id" path
    matching_id alarm alarm_id path
    require (text_in transition_types (get fields "transition_type")) path "transition_type"
    each (λ key. require (is_null (get fields key) || is_alarm_state (get fields key)) path key)
        ("from_state" ∷ "to_state" ∷ [])
    required_date_time fields "occurred_at" path
    each (λ key. nullable required_uuid fields key path)
        ("event_id" ∷ "actor_user_id" ∷ "actor_auth_session_id" ∷ [])
    organization ← nullable required_uuid fields "actor_organization_id" path
    own_organization organization organization_id
    each (nullable_text fields)
        ("actor_organization_role" ∷ "actor_email" ∷ "actor_display_name" ∷ "reason" ∷ [])
    require (is_record (get fields "data")) path "transition data"
    ok fields

  -- parseTransitions(raw, alarmId, organizationId)
  pub parse_transitions : Value → String → String → Result (List Fields)
  parse_transitions raw alarm_id organization_id =
      parse_page id_of raw (parse_transition alarm_id organization_id) (page_size + 1)

  -- parseAcknowledgement(raw, deviceId, alarmId)
  pub parse_acknowledgement : Value → String → String → Result Fields
  parse_acknowledgement raw device_id alarm_id = do
    alarm ← parse_alarm raw device_id (some alarm_id)
    require (is_truthy (get alarm "acknowledged_at")) alarms_path "acknowledged receipt"
    ok alarm
