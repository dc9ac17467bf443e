-- ===== src/Api/Schedules/Tests.antt =====
-- A run of twenty minutes for frontend/src/lib/api/schedules.ts.
use stechbaza_iot.Prelude.{[], refl, some, true, ◌∷◌, ◌≡◌}
use stechbaza_iot.Api.Programs.{
  duration?, is_step_frequency, parse_program_plan, parse_step, parse_steps, plan_of_steps, step_of,
  within_limit,
}
use stechbaza_iot.Api.Schedules.{Calendar, first_characters, is_zoned, iso_day_text, zoned_second}
use stechbaza_iot.Api.Schedules.Occurrences.{
  ScheduleRun, parse_schedule_run, plan_fields, run_of_plan, run_of_texts,
}
use stechbaza_iot.Api.Schedules.Runs.{IsRun, parse_schedule_run-IsRun}
use stechbaza_iot.Host.Sample.{sample}
use stechbaza_iot.Js.Number.{integer?, is_finite, nat, num_eq, num_le, num_lt}
use stechbaza_iot.Js.Number.Rounding.{has_two_decimals}
use stechbaza_iot.Js.Regex.{test}
use stechbaza_iot.Js.Value.{Value, arr, end, field, get, items, num, obj, str}
use stechbaza_iot.Prelude.Int.{◌-ℤ◌}

abbrev all_days : Calendar
all_days = record { is_own_day = λ s. true; has_timezone = λ s. true }

abbrev step_of_ten : Value
step_of_ten =
    obj (field "frequency_hz" (num (nat 30)) (field "duration_seconds" (num (nat 600)) end))

abbrev run_value : Value
run_value = obj (
    field "version" (num (nat 1)) (
      field "steps" (arr (items (step_of_ten ∷ step_of_ten ∷ []))) (
        field "starts_at" (str "2026-10-05T08:40:00Z")
          (field "stops_at" (str "2026-10-05T09:00:00Z") end))))

abbrev twenty_minutes : ScheduleRun
twenty_minutes = record {
  plan = record {
    steps =
        record { frequency_hz = nat 30; duration_seconds = 600 }
        ∷ record { frequency_hz = nat 30; duration_seconds = 600 }
        ∷ [];
  };
  starts_at = "2026-10-05T08:40:00Z";
  stops_at = "2026-10-05T09:00:00Z";
}

run-parsed : parse_schedule_run all_days run_value ≡ some twenty_minutes
unfolding parse_schedule_run run_of_texts run_of_plan plan_fields is_zoned iso_day_text
    first_characters zoned_second parse_program_plan plan_of_steps within_limit parse_steps
    parse_step step_of duration? integer? is_step_frequency has_two_decimals num_le num_lt is_finite
    ◌-ℤ◌ get num_eq test
run-parsed = refl

parse_schedule_run-IsRun_example : IsRun all_days twenty_minutes
parse_schedule_run-IsRun_example =
    parse_schedule_run-IsRun all_days run_value twenty_minutes run-parsed
