-- ===== src/Api/Commands/Input.antt =====
-- frontend/src/lib/api/commands.ts: makeCommandInput.
pub mod Valid
use stechbaza_iot.Prelude.{Option, String, if◌then◌else◌, leb, none, some, ℕ, ◌&&◌}
use stechbaza_iot.Api.Commands.{CommandInput, CommandType, set_frequency, start_program}
use stechbaza_iot.Api.Errors.{Result, err, error, ok}
use stechbaza_iot.Api.Programs.{ProgramPlan, max_program_seconds, parse_program_plan}
use stechbaza_iot.Api.Programs.Receipt.{plan_value}
use stechbaza_iot.Host.{Host}
use stechbaza_iot.Js.Number.{Number, integer?, is_finite, nat, num_le}
use stechbaza_iot.Js.Text.{is_empty, trim}
use stechbaza_iot.Js.Value.{Fields, Value, end, field, null, num, obj}
use stechbaza_iot.Prelude.Int.{pos, ℤ}

-- An integer from 5 to 300.
unfoldable pub ttl_in_range : Option ℤ → Option ℕ
ttl_in_range (some (pos n)) = if leb 5 n && leb n 300 then some n else none
ttl_in_range z = none

-- A finite number from 0 to 100.
unfoldable pub frequency_in_range : Number → Option Number
frequency_in_range value =
    if is_finite value && num_le (nat 0) value && num_le value (nat 100) then some value else none

-- `undefined` or `null` in place of a plan, or the plan as a value.
abbrev pub plan_or_null : Option ProgramPlan → Value
plan_or_null none = null
plan_or_null (some plan) = plan_value plan

abbrev no_fields : Fields
no_fields = end

abbrev fields_of : Value → Fields
fields_of (obj fields) = fields
fields_of v = end

abbrev pub new_input : String → CommandType → Fields → ℕ → CommandInput
new_input request_id type payload ttl = record {
  request_id = request_id;
  command_type = type;
  payload = payload;
  ttl_seconds = ttl;
  supersedes_request_id = none;
  equipment_target = none;
}

unfoldable pub program_input : String → ℕ → Option ProgramPlan → Result CommandInput
program_input request_id ttl none = err (error "Перевірте частоти та тривалість етапів програми.")
program_input request_id ttl (some plan) =
    ok (new_input request_id start_program (fields_of (plan_value plan)) ttl)

unfoldable pub frequency_input : String → ℕ → Option Number → Result CommandInput
frequency_input request_id ttl none = err (error "Вкажіть частоту від 0 до 100 Гц.")
frequency_input request_id ttl (some hz) =
    ok (new_input request_id set_frequency (field "frequency_hz" (num hz) end) ttl)

module _ ⦃h : Host⦄ where
  -- validFrequency(text)
  unfoldable pub valid_frequency : String → Option Number
  valid_frequency text =
      if is_empty (trim text) then none else frequency_in_range (h.to_number text)

  unfoldable pub input_of :
      CommandType → String → String → Option ProgramPlan → Option ℕ → Result CommandInput
  input_of type frequency request_id program none =
      err (error "Час на прийняття команди має бути від 5 до 300 секунд.")
  input_of start_program frequency request_id program (some ttl) =
      program_input request_id ttl (parse_program_plan (plan_or_null program) max_program_seconds)
  input_of set_frequency frequency request_id program (some ttl) =
      frequency_input request_id ttl (valid_frequency frequency)
  input_of type frequency request_id program (some ttl) =
      ok (new_input request_id type no_fields ttl)

  unfoldable pub make_command_input :
      CommandType → String → Number → String → Option ProgramPlan → Result CommandInput
  make_command_input type frequency ttl request_id program =
      input_of type frequency request_id program (ttl_in_range (integer? ttl))
