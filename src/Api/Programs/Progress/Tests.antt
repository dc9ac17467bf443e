-- ===== src/Api/Programs/Progress/Tests.antt =====
-- A program that holds its second step, for frontend/src/lib/api/programs.ts.
use stechbaza_iot.Prelude.{refl, some, true, ◌≡◌}
use stechbaza_iot.Api.Access.Fields.{is_uuid, require, require_record, required_uuid}
use stechbaza_iot.Api.Answers.{unless_null}
use stechbaza_iot.Api.Errors.{ok}
use stechbaza_iot.Api.Programs.Progress.{
  ProgramProgress, check_amounts, check_state, parse_program_progress, progress_of, step_value,
}
use stechbaza_iot.Api.Programs.Progress.States.{IsProgress, parse_program_progress-IsProgress}
use stechbaza_iot.Host.Sample.{sample}
use stechbaza_iot.Js.Checks.{is_finite_in, is_integer_in}
use stechbaza_iot.Js.Number.{integer?, is_finite, nat, num_eq}
use stechbaza_iot.Js.Value.{Fields, bool, end, field, get, null, num, obj, str}

abbrev holding_fields : Fields
holding_fields = field "version" (num (nat 1)) (
    field "ready" (bool true) (
      field "state" (str "holding") (
        field "step_index" (num (nat 2)) (
          field "step_count" (num (nat 3)) (
            field "command_id" (str "22222222-2222-4222-8222-222222222222") (
              field "target_frequency_hz" (num (nat 35))
                (field "remaining_seconds" (num (nat 90)) (field "reason" null end))))))))

abbrev holding_program : ProgramProgress
holding_program = record {
  fields = holding_fields;
  step_index = 2;
  step_count = 3;
  limit = num (nat 86400);
}

holding-parsed : parse_program_progress (obj holding_fields) ≡ ok (some holding_program)
unfolding parse_program_progress progress_of get require_record require num_eq step_value integer?
    check_amounts unless_null required_uuid is_uuid is_finite_in is_finite is_integer_in check_state
holding-parsed = refl

parse_program_progress-IsProgress_example : IsProgress holding_program
parse_program_progress-IsProgress_example =
    parse_program_progress-IsProgress (obj holding_fields) holding_program holding-parsed
