-- ===== src/Form/Schedule.antt =====
-- frontend/src/lib/schedule-validation.ts: the order of the times of a schedule. An error is kept
-- as what it says; `none` is the empty text.
pub mod Order
mod Tests
use stechbaza_iot.Prelude.{
  List, Option, String, [], if◌then◌else◌, leb, ltb, map, none, some, true, ℕ, ◌*◌, ◌+◌, ◌/◌, ◌∷◌,
}
use stechbaza_iot.Api.Programs.{max_schedule_seconds}
use stechbaza_iot.Form.Time.{minute_of_day, normalize_time_input}
use stechbaza_iot.Js.Number.{Number}

pub record ScheduleChange : Type 0 where
  pub at : String
  pub day_offset : ℕ
  pub frequency_hz : Number

-- The fields of ScheduleSpec that the validation reads.
pub record ScheduleSpec : Type 0 where
  pub start_time : String
  pub stop_time : String
  pub stop_day_offset : ℕ
  pub changes : List ScheduleChange

pub data StopError : Type 0 where
  stops_too_soon : StopError
  runs_too_long : StopError

-- With the minutes that the text names.
pub data ChangeError : Type 0 where
  not_before_stop : ℕ → ℕ → ChangeError
  not_after_start : ℕ → ChangeError
  not_after_previous : ℕ → ChangeError

pub record TimingErrors : Type 0 where
  pub stop : Option StopError
  pub changes : List (Option ChangeError)

normalize_change : ScheduleChange → ScheduleChange
normalize_change c = record c { at = normalize_time_input c.at true }

-- normalizeScheduleTimes(spec)
pub normalize_schedule_times : ScheduleSpec → ScheduleSpec
normalize_schedule_times s = record s {
  start_time = normalize_time_input s.start_time true;
  stop_time = normalize_time_input s.stop_time true;
  changes = map normalize_change s.changes;
}

-- changes.map(() => "")
no_errors : List ScheduleChange → List (Option ChangeError)
no_errors l = map (λ c. none) l

-- stop - start, where start and stop are minutes from the start's midnight
pub stop_error : ℕ → ℕ → Option StopError
stop_error start stop =
    if ltb stop (start + 1)
    then some stops_too_soon
    else if ltb (start + max_schedule_seconds / 60) stop
    then some runs_too_long
    else none

-- previous !== null && point <= previous
not_later : Option ℕ → ℕ → Option ChangeError
not_later none point = none
not_later (some previous) point =
    if leb point previous then some (not_after_previous previous) else none

pub change_error : ℕ → ℕ → Option ℕ → ℕ → Option ChangeError
change_error start stop previous point =
    if leb stop point
    then some (not_before_stop point stop)
    else if leb point start
    then some (not_after_start start)
    else not_later previous point

-- The point of a change, where its time is one
unfoldable pub point_of : ScheduleChange → Option ℕ
point_of c = elim (minute_of_day c.at) [
  | none ↦ none
  | some time ↦ some (c.day_offset * 1440 + time)
]

error_at : ℕ → ℕ → Option ℕ → Option ℕ → Option ChangeError
error_at start stop previous none = none
error_at start stop previous (some point) = change_error start stop previous point

-- spec.changes.forEach(…), with the variable `previous`
pub change_errors : ℕ → ℕ → Option ℕ → List ScheduleChange → List (Option ChangeError)
change_errors start stop previous [] = []
change_errors start stop previous (c ∷ rest) =
    error_at start stop previous (point_of c) ∷ change_errors start stop (point_of c) rest

errors_from : List ScheduleChange → ℕ → ℕ → Option StopError → TimingErrors
errors_from l start stop (some e) = record { stop = some e; changes = no_errors l }
errors_from l start stop none = record {
  stop = none;
  changes = change_errors start stop (some start) l;
}

errors_of : ScheduleSpec → Option ℕ → Option ℕ → TimingErrors
errors_of s (some start) (some stop_time) =
    let stop = s.stop_day_offset * 1440 + stop_time in
    errors_from s.changes start stop (stop_error start stop)
errors_of s a b = record { stop = none; changes = no_errors s.changes }

-- scheduleTimingErrors(spec)
pub schedule_timing_errors : ScheduleSpec → TimingErrors
schedule_timing_errors s = errors_of s (minute_of_day s.start_time) (minute_of_day s.stop_time)
