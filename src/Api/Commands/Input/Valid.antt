-- ===== src/Api/Commands/Input/Valid.antt =====
-- Which inputs frontend/src/lib/api/commands.ts's makeCommandInput makes.
use stechbaza_iot.Prelude.{
  Option, Option-cases, String, ap, arith, inl, inr, refl, some, subst, ℕ, ◌*◌, ◌^◌, ◌≡◌, ◌≤◌,
}
use stechbaza_iot.Api.Commands.{
  CommandInput, CommandType, set_frequency, set_parameter, set_source, start, start_program,
  start_schedule, stop,
}
use stechbaza_iot.Api.Commands.Input.{
  frequency_in_range, frequency_input, input_of, make_command_input, new_input, no_fields,
  plan_or_null, program_input, ttl_in_range, valid_frequency,
}
use stechbaza_iot.Api.Errors.{ok, ok-injective}
use stechbaza_iot.Api.Programs.{ProgramPlan, max_program_seconds, parse_program_plan}
use stechbaza_iot.Api.Programs.Plan.{IsPlan, parse_program_plan-IsPlan}
use stechbaza_iot.Api.Programs.Receipt.{plan_value}
use stechbaza_iot.Host.{Host}
use stechbaza_iot.Js.Number.{Number, dyadic, integer?, is_finite, num_le, num_lt}
use stechbaza_iot.Js.Value.{Fields, Value, end, field, num, obj}
use stechbaza_iot.Prelude.Int.{negsuc, pos, ℤ}

module _ ⦃h : Host⦄ where
  -- What the input of a command is: its type and its request, a time to live of 5 to 300 seconds, and
  -- a payload that fits the type.
  abbrev pub HasPayload : CommandType → Fields → Type 0
  HasPayload start_program payload =
      (p : ProgramPlan) × IsPlan max_program_seconds p × (obj payload ≡ plan_value p)
  HasPayload set_frequency payload =
      (n k : ℕ) × (n ≤ 100 * 2 ^ k) × (payload ≡ field "frequency_hz" (num (dyadic (pos n) k)) end)
  HasPayload type payload = payload ≡ end

  pub record IsInput (type : CommandType) (request_id : String) (i : CommandInput) : Type 0 where
    pub same_type : i.command_type ≡ type
    pub same_request : i.request_id ≡ request_id
    pub shortest : 5 ≤ i.ttl_seconds
    pub longest : i.ttl_seconds ≤ 300
    pub payload : HasPayload type i.payload

  frequency_in_range-ok :
      (x y : Number)
      → frequency_in_range x ≡ some y
      → (n : ℕ) × (k : ℕ) × (n ≤ 100 * 2 ^ k) × (y ≡ dyadic (pos n) k)
  unfolding frequency_in_range is_finite num_le num_lt
  frequency_in_range-ok (dyadic (pos n) k) y e = (n, k, ground arith, ground arith)
  frequency_in_range-ok (dyadic (negsuc n) k) y e = ground arith
  frequency_in_range-ok x y e = cc

  frequency_text-ok :
      (text : String) (y : Number)
      → valid_frequency text ≡ some y
      → (n : ℕ) × (k : ℕ) × (n ≤ 100 * 2 ^ k) × (y ≡ dyadic (pos n) k)
  unfolding valid_frequency
  frequency_text-ok text y e = frequency_in_range-ok (h.to_number text) y (ground arith)

  program_input-IsInput :
      (request_id : String) (ttl : ℕ) (raw : Value) (i : CommandInput)
      → (5 ≤ ttl) × (ttl ≤ 300)
      → program_input request_id ttl (parse_program_plan raw max_program_seconds) ≡ ok i
      → IsInput start_program request_id i
  unfolding program_input plan_value
  program_input-IsInput request_id ttl raw i range e =
      elim (Option-cases (parse_program_plan raw max_program_seconds)) [
        | inl missing ↦ cc (missing, e)
        | inr (p, parsed) ↦
            subst (IsInput start_program request_id)
              (ok-injective (rw (parsed, program_input) at e))
              (record {
                same_type = refl;
                same_request = refl;
                shortest = range.0;
                longest = range.1;
                payload = (p, parse_program_plan-IsPlan raw max_program_seconds p parsed, refl);
              })
      ]

  frequency_input-IsInput :
      (request_id text : String) (ttl : ℕ) (i : CommandInput)
      → (5 ≤ ttl) × (ttl ≤ 300)
      → frequency_input request_id ttl (valid_frequency text) ≡ ok i
      → IsInput set_frequency request_id i
  unfolding frequency_input
  frequency_input-IsInput request_id text ttl i range e =
      elim (Option-cases (valid_frequency text)) [
        | inl missing ↦ cc (missing, e)
        | inr (hz, valid) ↦
            let (n, k, small, same) = frequency_text-ok text hz valid in
            subst (IsInput set_frequency request_id)
              (ok-injective (rw (valid, frequency_input) at e))
              (record {
                same_type = refl;
                same_request = refl;
                shortest = range.0;
                longest = range.1;
                payload = (n, k, small, ap (λ x. field "frequency_hz" (num x) end) same);
              })
      ]

  ttl_in_range-some : (z : Option ℤ) (ttl : ℕ) → ttl_in_range z ≡ some ttl → (5 ≤ ttl) × (ttl ≤ 300)
  unfolding ttl_in_range
  ttl_in_range-some z ttl e = ground arith

  plain-IsInput :
      (type : CommandType) (request_id : String) (ttl : ℕ) (i : CommandInput)
      → (5 ≤ ttl) × (ttl ≤ 300)
      → HasPayload type end
      → ok (new_input request_id type no_fields ttl) ≡ ok i
      → IsInput type request_id i
  plain-IsInput type request_id ttl i range fits e =
      subst (IsInput type request_id) (ok-injective e) (record {
        same_type = refl;
        same_request = refl;
        shortest = range.0;
        longest = range.1;
        payload = fits;
      })

  input_of-IsInput :
      (type : CommandType) (frequency request_id : String) (plan : Option ProgramPlan) (ttl : ℕ)
      (i : CommandInput)
      → (5 ≤ ttl) × (ttl ≤ 300)
      → input_of type frequency request_id plan (some ttl) ≡ ok i
      → IsInput type request_id i
  unfolding input_of
  input_of-IsInput start_program frequency request_id plan ttl i range e =
      program_input-IsInput request_id ttl (plan_or_null plan) i range e
  input_of-IsInput set_frequency frequency request_id plan ttl i range e =
      frequency_input-IsInput request_id frequency ttl i range e
  input_of-IsInput start frequency request_id plan ttl i range e =
      plain-IsInput start request_id ttl i range refl e
  input_of-IsInput stop frequency request_id plan ttl i range e =
      plain-IsInput stop request_id ttl i range refl e
  input_of-IsInput start_schedule frequency request_id plan ttl i range e =
      plain-IsInput start_schedule request_id ttl i range refl e
  input_of-IsInput set_source frequency request_id plan ttl i range e =
      plain-IsInput set_source request_id ttl i range refl e
  input_of-IsInput set_parameter frequency request_id plan ttl i range e =
      plain-IsInput set_parameter request_id ttl i range refl e

  -- An input is made only with a time to live of 5 to 300 seconds. A program start then carries an
  -- accepted plan, a frequency command a number from 0 to 100, and all others an empty payload.
  pub make_command_input-IsInput :
      (type : CommandType) (frequency : String) (ttl : Number) (request_id : String)
      (plan : Option ProgramPlan) (i : CommandInput)
      → make_command_input type frequency ttl request_id plan ≡ ok i
      → IsInput type request_id i
  unfolding make_command_input input_of
  make_command_input-IsInput type frequency ttl request_id plan i e =
      elim (Option-cases (ttl_in_range (integer? ttl))) [
        | inl missing ↦ cc (missing, e)
        | inr (seconds, valid) ↦
            input_of-IsInput type frequency request_id plan seconds i
              (ttl_in_range-some (integer? ttl) seconds valid) (rw (valid, input_of) at e)
      ]
