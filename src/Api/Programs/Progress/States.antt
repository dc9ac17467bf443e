-- ===== src/Api/Programs/Progress/States.antt =====
-- The progress of a program that frontend/src/lib/api/programs.ts lets through, by its state.
use stechbaza_iot.Prelude.{
  Bool, Option, String, [], ap, arith, false, if-intro, if◌then◌else◌, leb, leb→le, none, not, some,
  true, ℕ, ◌&&◌, ◌==◌, ◌||◌, ◌∷◌, ◌≡◌, ◌≤◌,
}
use stechbaza_iot.Api.Access.Fields.{invalid, require_record}
use stechbaza_iot.Api.Access.Fields.Checks.{parser_rules}
use stechbaza_iot.Api.Errors.{Ends, Ends->>=, Ends-ok, Result, ok, ok-injective}
use stechbaza_iot.Api.Programs.{max_schedule_seconds}
use stechbaza_iot.Api.Programs.Progress.{
  ProgramProgress, check_amounts, check_state, is_coherent, overview_path, parse_program_progress,
  program_states, progress_of, step_number, step_value,
}
use stechbaza_iot.Host.{Host}
use stechbaza_iot.Js.Checks.{is_finite_in, is_integer_in, text_in}
use stechbaza_iot.Js.Number.{nat}
use stechbaza_iot.Js.Value.{Fields, Value, get, is_bool, is_nat, is_null, is_nullish, is_text, num}
use stechbaza_iot.Prelude.Int.{pos}

-- An idle program: nothing is under way.
pub record IsIdle (p : ProgramProgress) : Type 0 where
  pub no_command : is_null (get p.fields "command_id") ≡ true
  pub no_step : p.step_index ≡ 0
  pub no_steps : p.step_count ≡ 0
  pub no_frequency : is_null (get p.fields "target_frequency_hz") ≡ true
  pub no_time : is_null (get p.fields "remaining_seconds") ≡ true

-- A program that is not idle has the command that started it, and steps.
pub record IsStarted (p : ProgramProgress) : Type 0 where
  pub has_command : is_null (get p.fields "command_id") ≡ false
  pub has_steps : 1 ≤ p.step_count

pub record IsProgress (p : ProgramProgress) : Type 0 where
  pub in_order : p.step_index ≤ p.step_count
  pub few_steps : p.step_count ≤ 8
  pub known_state : text_in program_states (get p.fields "state") ≡ true
  pub idle : is_text (get p.fields "state") "idle" ≡ true → IsIdle p
  pub started : is_text (get p.fields "state") "idle" ≡ false → IsStarted p
  pub running :
      text_in ("setting" ∷ "starting" ∷ "holding" ∷ []) (get p.fields "state") ≡ true
      → (1 ≤ p.step_index)
        × (is_finite_in (nat 0) (nat 100) (get p.fields "target_frequency_hz") ≡ true)
  pub holding :
      is_text (get p.fields "state") "holding" ≡ true
      → is_integer_in (pos 0) (pos 604800) (get p.fields "remaining_seconds") ≡ true

-- The progress of an answer, if it has one
abbrev pub IfGiven : Option ProgramProgress → Type 0
IfGiven none = Unit
IfGiven (some p) = IsProgress p

step_number-le : (v : Value) (n : ℕ) → step_number v ≡ some n → n ≤ 8
unfolding step_number
step_number-le (num x) n e = ground arith
step_number-le v n e = cc

third : (a b c : Bool) → (a && b && c) ≡ true → c ≡ true
third a b c e = ground arith

coherent_idle :
    (s c f r w : Bool) (i k : ℕ)
    → (if s then c && i == 0 && k == 0 && f && r && w else not c && not (k == 0)) ≡ true
    → s ≡ true
    → (c ≡ true) × (i ≡ 0) × (k ≡ 0) × (f ≡ true) × (r ≡ true)
coherent_idle s c f r w i k e is_idle = ground arith

coherent_started :
    (s c f r w : Bool) (i k : ℕ)
    → (if s then c && i == 0 && k == 0 && f && r && w else not c && not (k == 0)) ≡ true
    → s ≡ false
    → (c ≡ false) × (1 ≤ k)
coherent_started s c f r w i k e not_idle = ground arith

moving :
    (run absent bounded : Bool) (i : ℕ)
    → not (run && (i == 0 || absent)) ≡ true
    → (absent || bounded) ≡ true
    → run ≡ true
    → (1 ≤ i) × (bounded ≡ true)
moving run absent bounded i e f runs = ground arith

timed :
    (holds absent bounded : Bool)
    → not (holds && absent) ≡ true
    → (absent || bounded) ≡ true
    → holds ≡ true
    → bounded ≡ true
timed holds absent bounded e f here = ground arith

-- What check_amounts and check_state let through
pub record AreAmounts (raw : Fields) : Type 0 where
  pub frequency :
      (is_null (get raw "target_frequency_hz")
        || is_finite_in (nat 0) (nat 100) (get raw "target_frequency_hz"))
      ≡ true
  pub remaining :
      (is_null (get raw "remaining_seconds")
        || is_integer_in (pos 0) (pos 604800) (get raw "remaining_seconds"))
      ≡ true

pub record IsState (raw : Fields) (index count : ℕ) : Type 0 where
  pub coherent : is_coherent raw index count ≡ true
  pub active :
      not (
        text_in ("setting" ∷ "starting" ∷ "holding" ∷ []) (get raw "state")
        && (index == 0 || is_null (get raw "target_frequency_hz")))
      ≡ true
  pub hold :
      not (is_text (get raw "state") "holding" && is_null (get raw "remaining_seconds")) ≡ true

module _ ⦃h : Host⦄ where
  AreAmounts-intro :
      (raw : Fields)
      → (is_null (get raw "target_frequency_hz")
          || is_finite_in (nat 0) (nat 100) (get raw "target_frequency_hz"))
        ≡ true
      → (is_null (get raw "remaining_seconds")
          || is_integer_in (pos 0) (pos max_schedule_seconds) (get raw "remaining_seconds"))
        ≡ true
      → AreAmounts raw
  AreAmounts-intro raw a b = record { frequency = a; remaining = b }

  check_amounts-AreAmounts : (raw : Fields) → Ends (λ _. AreAmounts raw) (check_amounts raw)
  unfolding check_amounts
  check_amounts-AreAmounts raw = search (parser_rules, AreAmounts-intro) depth 12

  IsState-intro :
      (raw : Fields) (index count : ℕ)
      → is_coherent raw index count ≡ true
      → not (
          text_in ("setting" ∷ "starting" ∷ "holding" ∷ []) (get raw "state")
          && (index == 0 || is_null (get raw "target_frequency_hz")))
        ≡ true
      → not (is_text (get raw "state") "holding" && is_null (get raw "remaining_seconds")) ≡ true
      → IsState raw index count
  IsState-intro raw index count a b c = record { coherent = a; active = b; hold = c }

  check_state-IsState :
      (raw : Fields) (index count : ℕ)
      → Ends (λ _. IsState raw index count) (check_state raw index count)
  unfolding check_state
  check_state-IsState raw index count = search (parser_rules, IsState-intro) depth 12

  step_of-some :
      (o : Option ℕ) (n : ℕ)
      → (elim o as (λ _. Result ℕ) [ some m ↦ ok m | none ↦ invalid overview_path "program step" ])
        ≡ ok n
      → o ≡ some n
  unfolding invalid
  step_of-some (some m) n e = ap some (ok-injective e)
  step_of-some none n e = cc

  step_value-le : (raw : Fields) (key : String) (n : ℕ) → step_value raw key ≡ ok n → n ≤ 8
  unfolding step_value
  step_value-le raw key n e =
      step_number-le (get raw key) n (step_of-some (step_number (get raw key)) n e)

  IsProgress-intro :
      (p : ProgramProgress) {u w : Unit {0}}
      → (is_nat (get p.fields "version") 1
          && is_bool (get p.fields "ready")
          && text_in program_states (get p.fields "state"))
        ≡ true
      → step_value p.fields "step_count" ≡ ok p.step_count
      → leb p.step_index p.step_count ≡ true
      → check_amounts p.fields ≡ ok u
      → check_state p.fields p.step_index p.step_count ≡ ok w
      → IsProgress p
  unfolding is_coherent
  IsProgress-intro p known counted ordered amounts states =
      let measured = (check_amounts-AreAmounts p.fields).holds _ amounts in
      let s = (check_state-IsState p.fields p.step_index p.step_count).holds _ states in
      record {
        in_order = leb→le p.step_index p.step_count ordered;
        few_steps = step_value-le p.fields "step_count" p.step_count counted;
        known_state =
            third (is_nat (get p.fields "version") 1) (is_bool (get p.fields "ready")) _ known;
        idle = λ here.
            let (a, b, c, d, e) = coherent_idle _ _ _ _ _ _ _ s.coherent here in
            record { no_command = a; no_step = b; no_steps = c; no_frequency = d; no_time = e };
        started = λ here.
            let (a, b) = coherent_started _ _ _ _ _ _ _ s.coherent here in
            record { has_command = a; has_steps = b };
        running = λ here. moving _ _ _ _ s.active measured.frequency here;
        holding = λ here. timed _ _ _ s.hold measured.remaining here;
      }

  progress_of-IfGiven : (raw : Fields) → Ends IfGiven (progress_of raw)
  unfolding progress_of
  progress_of-IfGiven raw = search (parser_rules, IsProgress-intro) depth 15

  parse_program_progress-IfGiven : (value : Value) → Ends IfGiven (parse_program_progress value)
  unfolding parse_program_progress
  parse_program_progress-IfGiven value =
      if-intro (Ends IfGiven) (is_nullish value) (λ _. Ends-ok none tt)
        (λ _.
          Ends->>= (require_record value overview_path "program progress") _
            λ raw _. progress_of-IfGiven raw)

  -- The progress of a program that is accepted has a known state and at most 8 steps, of which the
  -- current one is no later than the last. An idle program has no command, steps, frequency or time
  -- left; any other has the command that started it and at least one step. While it runs it is at a
  -- step, with a frequency from 0 to 100 Hz, and while it holds one, with a whole number of seconds
  -- left, at most seven days.
  pub parse_program_progress-IsProgress :
      (value : Value) (p : ProgramProgress)
      → parse_program_progress value ≡ ok (some p)
      → IsProgress p
  parse_program_progress-IsProgress value p e =
      (parse_program_progress-IfGiven value).holds (some p) e
