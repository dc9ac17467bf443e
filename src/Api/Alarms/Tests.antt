-- ===== src/Api/Alarms/Tests.antt =====
-- A page of one resolved alarm for frontend/src/lib/api/alarms.ts.
use stechbaza_iot.Prelude.{Each, List, String, [], refl, ◌∷◌, ◌≡◌}
use stechbaza_iot.Api.Access.Fields.{
  is_uuid, require, require_record, required_date_time, required_string, required_uuid,
  uuid_pattern,
}
use stechbaza_iot.Api.Alarms.{
  AlarmFilters, has_stray_author, matches_filters, mismatch_of, nullable_text, parse_alarm,
  parse_alarm_page,
}
use stechbaza_iot.Api.Alarms.Coherent.{IsAlarm, IsWanted, parse_alarm_page-AreAlarms}
use stechbaza_iot.Api.Answers.{each}
use stechbaza_iot.Api.Errors.{ok, traverse}
use stechbaza_iot.Api.Inventory.{matching_id, matching_if, nullable, page_rows, parse_page}
use stechbaza_iot.Host.Sample.{sample}
use stechbaza_iot.Js.Checks.{is_safe_from}
use stechbaza_iot.Js.Number.{nat, safe_integer?}
use stechbaza_iot.Js.Set.{is_distinct, set_of}
use stechbaza_iot.Js.Value.{Fields, Value, arr, cons, end, field, get, nil, null, num, obj, str}

abbrev alarm_id : String
alarm_id = "22222222-2222-4222-8222-222222222222"

abbrev nine : Value
nine = str "2026-10-05T09:00:00Z"

abbrev fields_of : List (String × Value) → Fields
fields_of [] = end
fields_of ((k, v) ∷ rest) = field k v (fields_of rest)

abbrev resolved_alarm : Fields
resolved_alarm = fields_of (
    ("id", str alarm_id)
    ∷ ("device_id", str alarm_id)
    ∷ ("alarm_key", str "k")
    ∷ ("alarm_type", str "vfd_fault")
    ∷ ("title", str "t")
    ∷ ("description", null)
    ∷ ("state", str "resolved")
    ∷ ("severity", str "critical")
    ∷ ("first_raised_at", nine)
    ∷ ("last_raised_at", nine)
    ∷ ("created_at", nine)
    ∷ ("updated_at", nine)
    ∷ ("resolved_at", nine)
    ∷ ("acknowledged_at", null)
    ∷ ("acknowledged_by_user_id", null)
    ∷ ("acknowledged_by_email", null)
    ∷ ("acknowledged_by_display_name", null)
    ∷ ("last_event_id", null)
    ∷ ("occurrence_count", num (nat 2))
    ∷ ("context", obj end)
    ∷ [])

abbrev resolved_ones : AlarmFilters
resolved_ones = record { state = "resolved"; severity = ""; alarm_type = "vfd_fault" }

abbrev alarm_page : Value
alarm_page = arr (cons (obj resolved_alarm) nil)

page-parsed : parse_alarm_page alarm_page alarm_id resolved_ones ≡ ok (resolved_alarm ∷ [])
unfolding parse_alarm_page get parse_page page_rows require traverse parse_alarm require_record
    required_uuid is_uuid matching_if matching_id each required_date_time nullable nullable_text
    is_safe_from safe_integer? is_distinct required_string uuid_pattern has_stray_author
    matches_filters mismatch_of set_of
page-parsed = refl

parse_alarm_page-AreAlarms_example :
    Each (IsAlarm alarm_id) (resolved_alarm ∷ [])
    × Each (IsWanted resolved_ones) (resolved_alarm ∷ [])
parse_alarm_page-AreAlarms_example =
    parse_alarm_page-AreAlarms alarm_page alarm_id resolved_ones (resolved_alarm ∷ []) page-parsed
