-- ===== src/Api/Schedules.antt =====
-- frontend/src/lib/api/schedules.ts: the rules of a schedule, and the list of schedules.
pub mod Occurrences
pub mod Runs
pub mod Tests
use stechbaza_iot.Prelude.{
  Bool, List, Option, String, [], all, false, if◌then◌else◌, is_some, leb, length, map, none, not,
  some, suc, true, zero, ℕ, ◌&&◌, ◌*◌, ◌+◌, ◌-◌, ◌==◌, ◌||◌, ◌∷◌,
}
use stechbaza_iot.Api.Access.Fields.{
  require, require_record, required_date_time, required_string, required_uuid,
}
use stechbaza_iot.Api.Answers.{each, require_list, unless_null}
use stechbaza_iot.Api.Errors.{Result, ok, traverse, ◌>>=◌, ◌>>◌}
use stechbaza_iot.Api.Notifications.{id_of}
use stechbaza_iot.Api.Programs.{
  ProgramPlan, max_schedule_days, max_schedule_seconds, parse_program_plan, total_seconds,
}
use stechbaza_iot.Host.{Host}
use stechbaza_iot.Js.Checks.{
  is_finite_above, is_integer_in, is_safe_from, number_where, text_in, text_where,
}
use stechbaza_iot.Js.Number.{integer?, nat}
use stechbaza_iot.Js.Regex.{Regex, alt, cat, char, class, digit, opt, plus, repeat, seq, test}
use stechbaza_iot.Js.Set.{is_distinct}
use stechbaza_iot.Js.Text.{is_empty, trim}
use stechbaza_iot.Js.Value.{
  Fields, Value, end, field, get, is_bool, is_nat, is_null, is_string, is_text, keys, obj, str,
  strict_eq,
}
use stechbaza_iot.Prelude.Int.{leb_ℤ, negsuc, pos, ℤ, ◌-ℤ◌}

abbrev pub schedules_path : String
schedules_path = "/api/v1/devices/schedules"

abbrev repeats : List String
repeats = "once" ∷ "daily" ∷ "weekly" ∷ "interval" ∷ "monthly" ∷ "yearly" ∷ []

-- dayOffset(value)
day_offset : Value → Bool
day_offset v = is_integer_in (pos 0) (pos max_schedule_days) v

-- hz(value)
hz : Value → Bool
hz v = is_finite_above (nat 0) (nat 100) v

abbrev day_pattern : Regex
day_pattern = seq (repeat 4 digit ∷ char b'-' ∷ repeat 2 digit ∷ char b'-' ∷ repeat 2 digit ∷ [])

abbrev hour_pattern : Regex
hour_pattern =
    alt (cat (class ((b'0', b'1') ∷ [])) digit) (cat (char b'2') (class ((b'0', b'3') ∷ [])))

abbrev sixty_pattern : Regex
sixty_pattern = cat (class ((b'0', b'5') ∷ [])) digit

-- /^(?:[01]\d|2[0-3]):[0-5]\d(?::00)?$/
local_time_pattern : Regex
local_time_pattern = seq (
    hour_pattern
    ∷ char b':'
    ∷ sixty_pattern
    ∷ opt (seq (char b':' ∷ char b'0' ∷ char b'0' ∷ []))
    ∷ [])

-- zonedSecond: a time of a whole second, with its offset
zoned_second : Regex
zoned_second = seq (
    day_pattern
    ∷ char b'T'
    ∷ hour_pattern
    ∷ char b':'
    ∷ sixty_pattern
    ∷ char b':'
    ∷ sixty_pattern
    ∷ opt (cat (char b'.') (plus (char b'0')))
    ∷ alt (char b'Z') (
        seq (
          class ((b'+', b'+') ∷ (b'-', b'-') ∷ []) ∷ hour_pattern ∷ char b':' ∷ sixty_pattern ∷ []))
    ∷ [])

-- localTime(value)
local_time : Value → Bool
local_time v = text_where (test local_time_pattern) v

-- value.slice(0, n)
first_characters : ℕ → String → String
first_characters zero s = ""
first_characters (suc n) String.[] = ""
first_characters (suc n) (String.◌∷◌ c s) = String.◌∷◌ c (first_characters n s)

-- values.some((value) => …) fails, for different integers in a range
abbrev same_values : Value → List Value → Bool
same_values v [] = false
same_values v (w ∷ rest) = strict_eq v w || same_values v rest

abbrev all_different : List Value → Bool
all_different [] = true
all_different (v ∷ rest) = not (same_values v rest) && all_different rest

are_numbers_in : ℕ → ℕ → List Value → Bool
are_numbers_in lo hi values =
    leb (length values) (hi - lo + 1)
    && all_different values
    && all (is_integer_in (pos lo) (pos hi)) values

-- Number.isInteger(raw.month_day) && -1 <= month_day <= 31 && month_day != 0
is_month_day : Value → Bool
is_month_day v = is_integer_in (negsuc 0) (pos 31) v && not (is_nat v 0)

is_change : Value → Bool
unfolding hz local_time day_offset
is_change (obj fields) =
    local_time (get fields "at")
    && day_offset (get fields "day_offset")
    && hz (get fields "frequency_hz")
is_change v = false

-- The language and its calendar, beside Host
pub record Calendar : Type 0 where
  -- new Date(text).toISOString().slice(0, 10) === text, where Date.parse reads the text
  pub is_own_day : String → Bool
  -- new Intl.DateTimeFormat("uk-UA", { timeZone }) does not throw
  pub has_timezone : String → Bool

module _ ⦃h : Host⦄ (calendar : Calendar) where
  -- isoDay(value)
  iso_day_text : String → Bool
  iso_day_text s = test day_pattern s && is_some (h.date_parse s) && calendar.is_own_day s

  iso_day : Value → Bool
  iso_day v = text_where iso_day_text v

  is_rule : Fields → Bool
  is_rule raw =
      text_where (λ s. not (is_empty (trim s))) (get raw "name")
      && is_string (get raw "timezone")
      && iso_day (get raw "start_date")
      && iso_day (get raw "until_date")
      && local_time (get raw "start_time")
      && local_time (get raw "stop_time")
      && day_offset (get raw "stop_day_offset")
      && hz (get raw "frequency_hz")
      && text_in repeats (get raw "repeat")

  list_where : (List Value → Bool) → Value → String → Result (Unit {0})
  list_where test value expected = do
    values ← require_list value schedules_path expected
    require (test values) schedules_path expected

  -- parseScheduleSpec(raw)
  pub parse_schedule_spec : Value → Result Fields
  unfolding is_rule list_where are_numbers_in
  parse_schedule_spec raw = do
    let path = schedules_path
    fields ← require_record raw path "schedule rule"
    require (is_rule fields) path "schedule rule"
    require (text_where calendar.has_timezone (get fields "timezone")) path "schedule timezone"
    list_where (are_numbers_in 0 6) (get fields "weekdays") "weekdays"
    list_where (are_numbers_in 1 12) (get fields "months") "months"
    require
        (is_integer_in (pos 1) (pos 366) (get fields "interval_days")
          && is_month_day (get fields "month_day"))
        path "schedule interval"
    list_where (λ days. leb (length days) 100 && all iso_day days) (get fields "excluded_dates")
        "schedule exclusions"
    list_where (λ changes. leb (length changes) 7 && all is_change changes) (get fields "changes")
        "schedule frequency changes"
    ok fields

  -- parseSchedule(raw, deviceId, organizationId)
  pub parse_schedule : String → String → Value → Result Fields
  parse_schedule device_id organization_id raw = do
    let path = schedules_path
    fields ← require_record raw path "schedule"
    each (λ key. required_uuid fields key path) ("id" ∷ "device_id" ∷ "organization_id" ∷ [])
    require
        (is_text (get fields "device_id") device_id
          && is_text (get fields "organization_id") organization_id)
        path "schedule scope"
    require (is_safe_from (pos 1) (get fields "revision") && is_bool (get fields "enabled")) path
        "schedule revision"
    each (λ key. required_date_time fields key path) ("created_at" ∷ "updated_at" ∷ [])
    unless_null required_date_time fields "next_start_at" path
    parse_schedule_spec (get fields "spec")
    ok fields

  schedule_rows : String → String → List Value → Result (List Fields)
  schedule_rows device_id organization_id raw = do
    require (leb (length raw) 50) schedules_path "schedule list"
    rows ← traverse (parse_schedule device_id organization_id) raw
    require (is_distinct (map id_of rows)) schedules_path "duplicate schedule"
    ok rows

  -- parseSchedules(raw, deviceId, organizationId)
  pub parse_schedules : Value → String → String → Result (List Fields)
  unfolding schedule_rows
  parse_schedules raw device_id organization_id = do
    rows ← require_list raw schedules_path "schedule list"
    schedule_rows device_id organization_id rows

  -- zonedSecond.test(value) && isoDay(value.slice(0, 10))
  pub is_zoned : String → Bool
  is_zoned s = test zoned_second s && iso_day_text (first_characters 10 s)
