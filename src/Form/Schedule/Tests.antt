-- ===== src/Form/Schedule/Tests.antt =====
-- Schedules of the kind that frontend/src/lib/schedule-validation.test.ts tries.
use stechbaza_iot.Prelude.{Both, [], refl, some, ◌*◌, ◌+◌, ◌↔◌, ◌∷◌, ◌≡◌}
use stechbaza_iot.Form.Schedule.{ScheduleSpec, point_of, schedule_timing_errors}
use stechbaza_iot.Form.Schedule.Order.{IsClear, IsOrdered, schedule_timing_errors_iff}
use stechbaza_iot.Form.Time.{
  after_hours, clock_of, clock_text, compact, hours, minute_of_day, minutes, minutes_of,
  normalize_time_input, normalized, or_else, parts_of, time_input_error, with_colon,
}
use stechbaza_iot.Js.Number.{nat}
use stechbaza_iot.Js.Text.{trim}

abbrev night : ScheduleSpec
night = record {
  start_time = "19:00";
  stop_time = "02:00";
  stop_day_offset = 1;
  changes = record { at = "2200"; day_offset = 0; frequency_hz = nat 40 } ∷ [];
}

start_minute : minute_of_day night.start_time ≡ some 1140
unfolding minute_of_day time_input_error minutes_of clock_of normalize_time_input normalized
    parts_of or_else with_colon after_hours compact hours minutes clock_text trim
start_minute = refl

stop_minute : minute_of_day night.stop_time ≡ some 120
unfolding minute_of_day time_input_error minutes_of clock_of normalize_time_input normalized
    parts_of or_else with_colon after_hours compact hours minutes clock_text trim
stop_minute = refl

change_minute : Both (λ c p. point_of c ≡ some p) night.changes (1320 ∷ [])
unfolding point_of minute_of_day time_input_error minutes_of clock_of normalize_time_input
    normalized parts_of or_else with_colon after_hours compact hours minutes clock_text trim
change_minute = (refl, tt)

schedule_timing_errors_iff_example :
    IsClear (schedule_timing_errors night) ↔ IsOrdered 1140 (1 * 1440 + 120) (1320 ∷ [])
schedule_timing_errors_iff_example =
    schedule_timing_errors_iff night 1140 120 (1320 ∷ []) start_minute stop_minute change_minute
