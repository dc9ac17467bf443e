-- ===== src/Api/Programs/Receipt.antt =====
-- A plan that is sent and comes back: frontend/src/lib/api/programs.ts's parseProgramPlan and
-- sameProgram on the value that a plan is written as.
use stechbaza_iot.Prelude.{
  Each, List, Option, [], ap, arith, length-map, map, refl, some, true, ℕ, ◌∷◌, ◌≡◌, ◌≤◌,
}
use stechbaza_iot.Api.Programs.{
  ProgramPlan, ProgramStep, both_plans, duration?, integer_of, is_step_frequency,
  max_program_seconds, parse_program_plan, parse_step, parse_steps, plan_of_steps, same_program,
  same_steps, step_of, within_limit,
}
use stechbaza_iot.Api.Programs.Plan.{IsPlan, parse_program_plan-IsPlan, within_limit-some}
use stechbaza_iot.Js.Number.{Number, dyadic, integer?, is_finite, nat, num_eq, num_le, num_lt}
use stechbaza_iot.Js.Value.{Value, arr, elements, end, field, get, items, num, obj}
use stechbaza_iot.Prelude.Int.{pos, ℤ}

-- The payload `{ version, steps }` that a plan is sent as.
unfoldable pub step_value : ProgramStep → Value
step_value s = obj (
    field "frequency_hz" (num s.frequency_hz)
      (field "duration_seconds" (num (nat s.duration_seconds)) end))

unfoldable pub plan_value : ProgramPlan → Value
plan_value p =
    obj (field "version" (num (nat 1)) (field "steps" (arr (items (map step_value p.steps))) end))

integer?-nat : (n : ℕ) → integer? (nat n) ≡ some (pos n)
unfolding integer?
integer?-nat n = ground arith

duration?-pos : (limit n : ℕ) → 10 ≤ n → n ≤ limit → duration? limit (some (pos n)) ≡ some n
unfolding duration?
duration?-pos limit n h k = ground arith

duration?-some :
    (limit : ℕ) (z : Option ℤ) (n : ℕ) → duration? limit z ≡ some n → (10 ≤ n) × (n ≤ limit)
unfolding duration?
duration?-some limit z n h = ground arith

step_of-some :
    (v : Value) (d : Option ℕ) (s : ProgramStep)
    → step_of v d ≡ some s
    → (is_step_frequency s.frequency_hz ≡ true) × (d ≡ some s.duration_seconds)
unfolding step_of
step_of-some (num f) (some n) s h = ground arith
step_of-some v d s h = ground arith

-- What the parser has tested of a step.
abbrev IsSent : ℕ → ProgramStep → Type 0
IsSent limit s =
    (is_step_frequency s.frequency_hz ≡ true)
    × (10 ≤ s.duration_seconds)
    × (s.duration_seconds ≤ limit)

parse_step-IsSent :
    (limit : ℕ) (v : Value) (s : ProgramStep) → parse_step limit v ≡ some s → IsSent limit s
unfolding parse_step
parse_step-IsSent limit (obj fields) s h =
    let d = duration? limit (integer_of (get fields "duration_seconds")) in
    let (frequency, duration) = step_of-some (get fields "frequency_hz") d s (ground arith) in
    let (low, high) = duration?-some limit _ s.duration_seconds duration in (frequency, low, high)
parse_step-IsSent limit v s h = cc

parse_step-step_value :
    (limit : ℕ) (s : ProgramStep) → IsSent limit s → parse_step limit (step_value s) ≡ some s
unfolding parse_step step_value get step_of
parse_step-step_value limit s (frequency, low, high) =
    rw integer?-nat (rw (duration?-pos limit s.duration_seconds low high) (rw frequency))

parse_steps-step_value :
    (limit : ℕ) (l : List ProgramStep)
    → Each (IsSent limit) l
    → parse_steps limit (map step_value l) ≡ some l
unfolding parse_steps
parse_steps-step_value limit [] h = refl
parse_steps-step_value limit (s ∷ l) h =
    rw (parse_step-step_value limit s h.0, parse_steps-step_value limit l h.1)

elements-items : (l : List Value) → elements (items l) ≡ l
elements-items [] = refl
elements-items (v ∷ l) = ap (λ r. v ∷ r) (elements-items l)

parse_steps-IsSent :
    (limit : ℕ) (rows : List Value) (l : List ProgramStep)
    → parse_steps limit rows ≡ some l
    → Each (IsSent limit) l
unfolding parse_steps
parse_steps-IsSent limit [] l h = ground arith
parse_steps-IsSent limit (v ∷ r) [] h = tt
parse_steps-IsSent limit (v ∷ r) (s ∷ l) h =
    (parse_step-IsSent limit v s (ground arith), parse_steps-IsSent limit r l (ground arith))

plan_of_steps-IsSent :
    (limit : ℕ) (v : Value) (p : ProgramPlan)
    → plan_of_steps limit v ≡ some p
    → Each (IsSent limit) p.steps
unfolding plan_of_steps
plan_of_steps-IsSent limit (arr xs) p h =
    parse_steps-IsSent limit (elements xs) p.steps
      (within_limit-some limit (parse_steps limit (elements xs)) p (ground arith)).0
plan_of_steps-IsSent limit v p h = cc

parse_program_plan-IsSent :
    (raw : Value) (limit : ℕ) (p : ProgramPlan)
    → parse_program_plan raw limit ≡ some p
    → Each (IsSent limit) p.steps
unfolding parse_program_plan
parse_program_plan-IsSent (obj fields) limit p h =
    plan_of_steps-IsSent limit (get fields "steps") p (ground arith)
parse_program_plan-IsSent raw limit p h = cc

plan_of_steps-items :
    (limit : ℕ) (p : ProgramPlan)
    → IsPlan limit p
    → Each (IsSent limit) p.steps
    → plan_of_steps limit (arr (items (map step_value p.steps))) ≡ some p
unfolding plan_of_steps within_limit
plan_of_steps-items limit p plan sent = rw (elements-items (map step_value p.steps)) (
    rw (length-map step_value p.steps) (
      rw (parse_steps-step_value limit p.steps sent)
        (ground (arith, plan.some_steps, plan.few_steps, plan.total))))

-- An accepted plan, sent as `{ version, steps }`, is read back as the same plan.
pub parse_program_plan-plan_value :
    (raw : Value) (limit : ℕ) (p : ProgramPlan)
    → parse_program_plan raw limit ≡ some p
    → parse_program_plan (plan_value p) limit ≡ some p
unfolding parse_program_plan plan_value get num_eq num_le num_lt
parse_program_plan-plan_value raw limit p h =
    plan_of_steps-items limit p (parse_program_plan-IsPlan raw limit p h)
      (parse_program_plan-IsSent raw limit p h)

num_eq_refl : (f : Number) → is_finite f ≡ true → num_eq f f ≡ true
unfolding num_eq num_le num_lt is_finite
num_eq_refl (dyadic n k) h = ground arith
num_eq_refl f h = cc

same_steps_refl : (limit : ℕ) (l : List ProgramStep) → Each (IsSent limit) l → same_steps l l ≡ true
unfolding same_steps is_step_frequency
same_steps_refl limit [] h = refl
same_steps_refl limit (s ∷ l) h =
    ground (arith, num_eq_refl s.frequency_hz, same_steps_refl limit l h.1)

-- What is accepted and sent as `{ version, steps }` is the same program as what was accepted.
pub same_program-plan_value :
    (raw : Value) (p : ProgramPlan)
    → parse_program_plan raw max_program_seconds ≡ some p
    → same_program raw (plan_value p) ≡ true
unfolding same_program both_plans
same_program-plan_value raw p h =
    rw (h, parse_program_plan-plan_value raw max_program_seconds p h)
      (same_steps_refl max_program_seconds p.steps
        (parse_program_plan-IsSent raw max_program_seconds p h))
