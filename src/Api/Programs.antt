-- ===== src/Api/Programs.antt =====
-- frontend/src/lib/api/programs.ts: the plan of a frequency program and its checks.
pub mod Plan
pub mod Receipt
pub mod Progress
mod Tests
use stechbaza_iot.Prelude.{
  Bool, List, Option, [], all, false, if◌then◌else◌, leb, length, none, some, true, ℕ, ◌&&◌, ◌*◌,
  ◌+◌, ◌==◌, ◌∷◌,
}
use stechbaza_iot.Js.Number.{Number, integer?, is_finite, nat, num_eq, num_le, num_lt}
use stechbaza_iot.Js.Number.Rounding.{has_two_decimals}
use stechbaza_iot.Js.Value.{Value, arr, elements, get, is_nat, keys, num, obj}
use stechbaza_iot.Prelude.Int.{pos, ℤ}

pub record ProgramStep : Type 0 where
  pub frequency_hz : Number
  pub duration_seconds : ℕ

-- `version` is the constant 1.
pub record ProgramPlan : Type 0 where
  pub steps : List ProgramStep

abbrev pub max_program_steps : ℕ
max_program_steps = 8

abbrev pub max_program_seconds : ℕ
max_program_seconds = 86400

abbrev pub max_schedule_days : ℕ
max_schedule_days = 7

abbrev pub max_schedule_seconds : ℕ
max_schedule_seconds = max_schedule_days * 86400

-- A finite frequency above 0 and up to 100, within 0.000001 of two decimals.
unfoldable pub is_step_frequency : Number → Bool
is_step_frequency f =
    is_finite f && num_lt (nat 0) f && num_le f (nat 100) && has_two_decimals 4722366482869645 72 f

-- An integer from 10 to the limit, as a number of seconds.
unfoldable pub duration? : ℕ → Option ℤ → Option ℕ
duration? limit (some (pos n)) = if leb 10 n && leb n limit then some n else none
duration? limit z = none

abbrev integer_of : Value → Option ℤ
integer_of (num x) = integer? x
integer_of v = none

unfoldable pub step_of : Value → Option ℕ → Option ProgramStep
step_of (num f) (some n) =
    if is_step_frequency f then some (record { frequency_hz = f; duration_seconds = n }) else none
step_of v d = none

-- The body of the loop over `raw.steps`.
unfoldable pub parse_step : ℕ → Value → Option ProgramStep
parse_step limit (obj fields) =
    if length (keys fields) == 2
    then step_of (get fields "frequency_hz")
        (duration? limit (integer_of (get fields "duration_seconds")))
    else none
parse_step limit v = none

abbrev cons_step : Option ProgramStep → Option (List ProgramStep) → Option (List ProgramStep)
cons_step (some s) (some l) = some (s ∷ l)
cons_step s l = none

unfoldable pub parse_steps : ℕ → List Value → Option (List ProgramStep)
parse_steps limit [] = some []
parse_steps limit (v ∷ r) = cons_step (parse_step limit v) (parse_steps limit r)

-- steps.reduce((sum, step) => sum + step.duration_seconds, 0)
abbrev pub total_seconds : List ProgramStep → ℕ
total_seconds [] = 0
total_seconds (s ∷ r) = s.duration_seconds + total_seconds r

unfoldable pub within_limit : ℕ → Option (List ProgramStep) → Option ProgramPlan
within_limit limit none = none
within_limit limit (some l) =
    if leb (total_seconds l) limit then some (record { steps = l }) else none

unfoldable pub plan_of_steps : ℕ → Value → Option ProgramPlan
plan_of_steps limit (arr xs) =
    let rows = elements xs in
    if leb 1 (length rows) && leb (length rows) max_program_steps
    then within_limit limit (parse_steps limit rows)
    else none
plan_of_steps limit v = none

-- parseProgramPlan(raw, maxSeconds)
unfoldable pub parse_program_plan : Value → ℕ → Option ProgramPlan
parse_program_plan (obj fields) limit =
    if is_nat (get fields "version") 1 && length (keys fields) == 2
    then plan_of_steps limit (get fields "steps")
    else none
parse_program_plan v limit = none

unfoldable pub same_steps : List ProgramStep → List ProgramStep → Bool
same_steps [] [] = true
same_steps (a ∷ l) (b ∷ r) =
    num_eq a.frequency_hz b.frequency_hz
    && a.duration_seconds == b.duration_seconds
    && same_steps l r
same_steps l r = false

unfoldable pub both_plans : Option ProgramPlan → Option ProgramPlan → Bool
both_plans (some a) (some b) = same_steps a.steps b.steps
both_plans a b = false

-- sameProgram(a, b)
unfoldable pub same_program : Value → Value → Bool
same_program a b =
    both_plans (parse_program_plan a max_program_seconds) (parse_program_plan b max_program_seconds)

pub record FrequencyLimits : Type 0 where
  pub min_hz : Number
  pub max_hz : Number

-- programWithinLimits(plan, limits)
pub program_within_limits : ProgramPlan → Option FrequencyLimits → Bool
program_within_limits plan none = false
program_within_limits plan (some limits) =
    all (λ s. num_le limits.min_hz s.frequency_hz && num_le s.frequency_hz limits.max_hz) plan.steps
