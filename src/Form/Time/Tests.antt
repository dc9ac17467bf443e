-- ===== src/Form/Time/Tests.antt =====
-- Times as a person may type them into frontend/src/lib/time-input.ts.
use stechbaza_iot.Prelude.{arith, none, refl, some, ◌≡◌}
use stechbaza_iot.Form.Time.{
  after_hours, clock_of, clock_text, compact, hours, minute_of_day, minutes, minutes_of,
  normalize_time_input, normalized, or_else, parts_of, time_input_error, two_digits, with_colon,
}
use stechbaza_iot.Form.Time.Minutes.{minute_of_day-parts}
use stechbaza_iot.Js.Text.{trim}

six : minute_of_day " 6:00 " ≡ some 360
unfolding minute_of_day time_input_error minutes_of clock_of normalize_time_input normalized
    parts_of or_else with_colon after_hours compact hours minutes clock_text trim
six = refl

too_late : minute_of_day "2460" ≡ none
unfolding minute_of_day time_input_error minutes_of clock_of normalize_time_input normalized
    parts_of or_else with_colon after_hours compact hours minutes clock_text trim
too_late = refl

minute_of_day-parts_example : minute_of_day "1905" ≡ some 1145
unfolding parts_of or_else with_colon after_hours compact trim hours minutes
minute_of_day-parts_example =
    minute_of_day-parts "1905" (two_digits "1" "9" "0" "5") refl (ground arith) (ground arith)
