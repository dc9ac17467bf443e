-- ===== src/Api/Programs/Tests.antt =====
-- Plans of frontend/src/lib/api/programs.ts at concrete inputs.
use stechbaza_iot.Prelude.{[], false, refl, some, ◌∷◌, ◌≡◌}
use stechbaza_iot.Api.Programs.{
  ProgramPlan, duration?, is_step_frequency, parse_program_plan, parse_step, parse_steps,
  plan_of_steps, step_of, within_limit,
}
use stechbaza_iot.Api.Programs.Plan.{IsPlan, parse_program_plan-IsPlan}
use stechbaza_iot.Api.Programs.Receipt.{parse_program_plan-plan_value, plan_value, step_value}
use stechbaza_iot.Js.Number.{dyadic, integer?, is_finite, nat, num_eq, num_le, num_lt}
use stechbaza_iot.Js.Number.Rounding.{has_two_decimals}
use stechbaza_iot.Js.Value.{get}
use stechbaza_iot.Prelude.Int.{pos}

abbrev two_steps : ProgramPlan
two_steps = record {
  steps =
      record { frequency_hz = dyadic (pos 101) 1; duration_seconds = 60 }
      ∷ record { frequency_hz = nat 30; duration_seconds = 600 }
      ∷ [];
}

two_steps-parsed : parse_program_plan (plan_value two_steps) 86400 ≡ some two_steps
unfolding parse_program_plan plan_of_steps parse_steps parse_step step_of duration? within_limit
    is_step_frequency plan_value step_value get num_eq num_le num_lt is_finite integer?
    has_two_decimals
two_steps-parsed = refl

-- A frequency with three decimals, 50.125 Hz.
three_decimals : is_step_frequency (dyadic (pos 401) 3) ≡ false
unfolding is_step_frequency num_le num_lt is_finite has_two_decimals
three_decimals = refl

parse_program_plan-IsPlan_example : IsPlan 86400 two_steps
parse_program_plan-IsPlan_example =
    parse_program_plan-IsPlan (plan_value two_steps) 86400 two_steps two_steps-parsed

parse_program_plan-plan_value_example :
    parse_program_plan (plan_value two_steps) 86400 ≡ some two_steps
parse_program_plan-plan_value_example =
    parse_program_plan-plan_value (plan_value two_steps) 86400 two_steps two_steps-parsed
