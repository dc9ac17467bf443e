-- ===== src/Api/Programs/Plan.antt =====
-- What frontend/src/lib/api/programs.ts's parseProgramPlan accepts.
use stechbaza_iot.Prelude.{
  Each, List, Option, [], ap, arith, length, none, refl, some, suc, true, ℕ, ◌*◌, ◌<◌, ◌^◌, ◌∷◌,
  ◌≡◌, ◌≤◌,
}
use stechbaza_iot.Api.Programs.{
  ProgramPlan, ProgramStep, duration?, integer_of, is_step_frequency, max_program_steps,
  parse_program_plan, parse_step, parse_steps, plan_of_steps, step_of, total_seconds, within_limit,
}
use stechbaza_iot.Js.Number.{Number, dyadic, is_finite, nat, num_le, num_lt}
use stechbaza_iot.Js.Value.{Value, arr, elements, get, num, obj}
use stechbaza_iot.Prelude.Int.{negsuc, pos, pos_part, ℤ}

-- A frequency n / 2 ^ k above 0 Hz and up to 100 Hz.
abbrev pub InHertz : Number → Type 0
InHertz (dyadic (pos n) k) = (0 < n) × (n ≤ 100 * 2 ^ k)
InHertz f = ⊥

pub record IsStep (limit : ℕ) (s : ProgramStep) : Type 0 where
  pub hertz : InHertz s.frequency_hz
  pub lasting : 10 ≤ s.duration_seconds
  pub bounded : s.duration_seconds ≤ limit

pub record IsPlan (limit : ℕ) (p : ProgramPlan) : Type 0 where
  pub some_steps : 1 ≤ length p.steps
  pub few_steps : length p.steps ≤ max_program_steps
  pub each_step : Each (IsStep limit) p.steps
  pub total : total_seconds p.steps ≤ limit

num_lt-zero : (n : ℤ) (k : ℕ) → num_lt (nat 0) (dyadic n k) ≡ true → 0 < pos_part n
unfolding num_lt
num_lt-zero n k h = ground arith

num_le-hundred : (n k : ℕ) → num_le (dyadic (pos n) k) (nat 100) ≡ true → n ≤ 100 * 2 ^ k
unfolding num_le
num_le-hundred n k h = ground arith

InHertz-intro :
    (f : Number)
    → is_finite f ≡ true
    → num_lt (nat 0) f ≡ true
    → num_le f (nat 100) ≡ true
    → InHertz f
unfolding is_finite
InHertz-intro (dyadic (pos n) k) h l u = (num_lt-zero (pos n) k l, num_le-hundred n k u)
InHertz-intro (dyadic (negsuc n) k) h l u = absurd (omega (arith, num_lt-zero (negsuc n) k l))
InHertz-intro f h l u = cc

is_step_frequency-InHertz : (f : Number) → is_step_frequency f ≡ true → InHertz f
unfolding is_step_frequency
is_step_frequency-InHertz f h = InHertz-intro f (ground arith) (ground arith) (ground arith)

step_of-IsStep :
    (limit : ℕ) (v : Value) (d : Option ℤ) (s : ProgramStep)
    → step_of v (duration? limit d) ≡ some s
    → IsStep limit s
unfolding step_of duration?
step_of-IsStep limit (num f) d s h = ground (arith, is_step_frequency-InHertz f)
step_of-IsStep limit v d s h = ground arith

parse_step-IsStep :
    (limit : ℕ) (v : Value) (s : ProgramStep) → parse_step limit v ≡ some s → IsStep limit s
unfolding parse_step
parse_step-IsStep limit (obj fields) s h = ground (
  arith,
  step_of-IsStep limit (get fields "frequency_hz") (integer_of (get fields "duration_seconds")) s,
)
parse_step-IsStep limit v s h = ground arith

parse_steps-IsStep :
    (limit : ℕ) (rows : List Value) (l : List ProgramStep)
    → parse_steps limit rows ≡ some l
    → Each (IsStep limit) l × (length l ≡ length rows)
unfolding parse_steps
parse_steps-IsStep limit [] [] h = (tt, refl)
parse_steps-IsStep limit [] (s ∷ l) h = cc
parse_steps-IsStep limit (v ∷ r) [] h = ground arith
parse_steps-IsStep limit (v ∷ r) (s ∷ l) h =
    let rest = parse_steps-IsStep limit r l (ground arith) in
    ((parse_step-IsStep limit v s (ground arith), rest.0), ap suc rest.1)

pub within_limit-some :
    (limit : ℕ) (o : Option (List ProgramStep)) (p : ProgramPlan)
    → within_limit limit o ≡ some p
    → (o ≡ some p.steps) × (total_seconds p.steps ≤ limit)
unfolding within_limit
within_limit-some limit none p h = cc
within_limit-some limit (some l) p h = ground arith

plan_of_steps-IsPlan :
    (limit : ℕ) (v : Value) (p : ProgramPlan) → plan_of_steps limit v ≡ some p → IsPlan limit p
unfolding plan_of_steps
plan_of_steps-IsPlan limit (arr xs) p h =
    let (parsed, total) =
      within_limit-some limit (parse_steps limit (elements xs)) p (ground arith) in
    let (each, same) = parse_steps-IsStep limit (elements xs) p.steps parsed in
    record { some_steps = ground arith; few_steps = ground arith; each_step = each; total = total }
plan_of_steps-IsPlan limit v p h = cc

-- A plan that the parser accepts has one to eight steps, each of a frequency above 0 Hz and up to
-- 100 Hz and of ten seconds to the limit, and the steps last for the limit at most in all.
pub parse_program_plan-IsPlan :
    (raw : Value) (limit : ℕ) (p : ProgramPlan)
    → parse_program_plan raw limit ≡ some p
    → IsPlan limit p
unfolding parse_program_plan
parse_program_plan-IsPlan (obj fields) limit p h =
    plan_of_steps-IsPlan limit (get fields "steps") p (ground arith)
parse_program_plan-IsPlan raw limit p h = cc
