-- ===== src/Api/Schedules/Occurrences.antt =====
-- frontend/src/lib/api/schedules.ts: the runs of a schedule, its preview and its history.
use stechbaza_iot.Prelude.{
  Bool, List, Option, String, [], all, false, if◌then◌else◌, is_some, leb, length, none, some, ◌&&◌,
  ◌*◌, ◌==◌, ◌||◌, ◌∷◌,
}
use stechbaza_iot.Api.Access.Fields.{
  require, require_record, required_date_time, required_string, required_uuid,
}
use stechbaza_iot.Api.Answers.{each, require_list, unless_null}
use stechbaza_iot.Api.Errors.{Result, ok, traverse, ◌>>=◌, ◌>>◌}
use stechbaza_iot.Api.Programs.{
  ProgramPlan, max_schedule_seconds, parse_program_plan, total_seconds,
}
use stechbaza_iot.Host.{Host}
use stechbaza_iot.Js.Checks.{number_where}
use stechbaza_iot.Js.Number.{integer?}
use stechbaza_iot.Js.Value.{
  Fields, Value, end, field, get, is_nat, is_null, is_string, is_text, keys, obj, str,
}
use stechbaza_iot.Prelude.Int.{leb_ℤ, pos, ℤ, ◌-ℤ◌}
use stechbaza_iot.Api.Schedules.{schedules_path, Calendar, is_zoned}

-- The parsed run: the plan, and the times of its start and its end
pub record ScheduleRun : Type 0 where
  pub plan : ProgramPlan
  pub starts_at : String
  pub stops_at : String

-- The run lasts for the seconds of its plan.
abbrev pub lasts : Option ℤ → Option ℤ → ProgramPlan → Bool
lasts (some starts) (some stops) plan =
    let seconds = pos (total_seconds plan.steps * 1000) in
    leb_ℤ (stops -ℤ starts) seconds && leb_ℤ seconds (stops -ℤ starts)
lasts starts stops plan = false

-- { version, steps }, of the fields of the run
unfoldable pub plan_fields : Fields → Value
plan_fields raw = obj (field "version" (get raw "version") (field "steps" (get raw "steps") end))

module _ ⦃h : Host⦄ (calendar : Calendar) where
  unfoldable pub run_of_plan : String → String → Option ProgramPlan → Option ScheduleRun
  run_of_plan starts_at stops_at none = none
  run_of_plan starts_at stops_at (some plan) =
      if lasts (h.date_parse starts_at) (h.date_parse stops_at) plan
      then some (record { plan = plan; starts_at = starts_at; stops_at = stops_at })
      else none

  unfoldable pub run_of_texts : Fields → Value → Value → Option ScheduleRun
  unfolding run_of_plan plan_fields
  run_of_texts raw (str starts_at) (str stops_at) =
      if is_zoned calendar starts_at
        && is_zoned calendar stops_at
        && is_some (h.date_parse starts_at)
        && is_some (h.date_parse stops_at)
      then run_of_plan starts_at stops_at
          (parse_program_plan (plan_fields raw) max_schedule_seconds)
      else none
  run_of_texts raw starts_at stops_at = none

  -- parseScheduleRun(raw)
  unfoldable pub parse_schedule_run : Value → Option ScheduleRun
  unfolding run_of_texts
  parse_schedule_run (obj raw) =
      if length (keys raw) == 4
      then run_of_texts raw (get raw "starts_at") (get raw "stops_at")
      else none
  parse_schedule_run v = none

  check_conflict : Value → Result String
  check_conflict v = required_uuid (field "id" v end) "id" schedules_path

  -- parseSchedulePreview(raw)
  pub parse_schedule_preview : Value → Result Fields
  unfolding check_conflict
  parse_schedule_preview raw = do
    let path = schedules_path
    fields ← require_record raw path "schedule preview"
    runs ← require_list (get fields "runs") path "schedule preview"
    require (leb (length runs) 5 && all (λ run. is_some (parse_schedule_run run)) runs) path
        "schedule preview"
    conflicts ← require_list (get fields "conflicts") path "schedule preview"
    require (leb (length conflicts) 50) path "schedule preview"
    notes ← require_list (get fields "notes") path "schedule preview"
    require (all is_string notes && is_nat (get fields "conflict_horizon_days") 366) path
        "schedule preview"
    each check_conflict conflicts
    ok fields

  parse_occurrence : String → Value → Result Fields
  parse_occurrence schedule_id raw = do
    let path = schedules_path
    row ← require_record raw path "schedule occurrence"
    require
        (is_text (get row "schedule_id") schedule_id
          && number_where (λ x. is_some (integer? x)) (get row "revision"))
        path "schedule occurrence"
    each (λ key. required_uuid row key path) ("id" ∷ "schedule_id" ∷ [])
    each (λ key. required_date_time row key path) ("starts_at" ∷ "stops_at" ∷ "created_at" ∷ [])
    unless_null required_uuid row "command_id" path
    required_string row "status" path
    require (is_null (get row "reason") || is_string (get row "reason")) path "schedule reason"
    ok row

  -- parseScheduleHistory(raw, scheduleId)
  pub parse_schedule_history : Value → String → Result (List Fields)
  parse_schedule_history raw schedule_id = do
    rows ← require_list raw schedules_path "schedule history"
    require (leb (length rows) 30) schedules_path "schedule history"
    traverse (parse_occurrence schedule_id) rows
