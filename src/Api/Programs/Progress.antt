-- ===== src/Api/Programs/Progress.antt =====
-- frontend/src/lib/api/programs.ts: how far a frequency program has come.
pub mod States
mod Tests
use Prim.Native.String
use stechbaza_iot.Prelude.{
  Bool, List, Option, String, [], false, if◌then◌else◌, leb, length, none, not, some, ℕ, ◌%◌, ◌&&◌,
  ◌++◌, ◌/◌, ◌==◌, ◌||◌, ◌∷◌,
}
use stechbaza_iot.Api.Access.Fields.{invalid, require, require_record, required_uuid}
use stechbaza_iot.Api.Answers.{unless_null}
use stechbaza_iot.Api.Errors.{Result, ok, ◌>>=◌, ◌>>◌}
use stechbaza_iot.Api.Programs.{max_program_seconds, max_program_steps, max_schedule_seconds}
use stechbaza_iot.Host.{Host}
use stechbaza_iot.Js.Checks.{is_finite_in, is_integer_in, text_in, text_where}
use stechbaza_iot.Js.Number.{integer?, nat}
use stechbaza_iot.Js.Text.{is_empty, utf16_length}
use stechbaza_iot.Js.Value.{
  Fields, Value, get, is_bool, is_nat, is_null, is_nullish, is_text, is_undefined, num,
}
use stechbaza_iot.Prelude.Int.{pos}

abbrev overview_path : String
overview_path = "/api/v1/devices/overview"

abbrev pub program_states : List String
program_states =
    "idle" ∷ "setting" ∷ "starting" ∷ "holding" ∷ "stopping" ∷ "completed" ∷ "interrupted"
    ∷ "failed" ∷ []

-- raw[key] === undefined || test
abbrev absent_or : Value → Bool → Bool
absent_or value test = is_undefined value || test

-- A step number, as an integer from 0 to MAX_PROGRAM_STEPS
pub step_number : Value → Option ℕ
step_number (num x) = elim (integer? x) [
  | some (pos n) ↦ if leb n max_program_steps then some n else none
  | _ ↦ none
]
step_number v = none

-- An idle program has no command, step, frequency, time or reason; any other has a command and steps.
pub is_coherent : Fields → ℕ → ℕ → Bool
is_coherent raw index count =
    if is_text (get raw "state") "idle"
    then is_null (get raw "command_id")
      && index == 0
      && count == 0
      && is_null (get raw "target_frequency_hz")
      && is_null (get raw "remaining_seconds")
      && is_null (get raw "reason")
    else not (is_null (get raw "command_id")) && not (count == 0)

-- ["setting", "starting", "holding"].includes(raw.state)
abbrev is_running : Value → Bool
is_running v = text_in ("setting" ∷ "starting" ∷ "holding" ∷ []) v

pub record ProgramProgress : Type 0 where
  pub fields : Fields
  pub step_index : ℕ
  pub step_count : ℕ
  pub limit : Value

-- parts.filter(Boolean)
filter_full : List String → List String
filter_full [] = []
filter_full (s ∷ rest) = let more = filter_full rest in if is_empty s then more else s ∷ more

module _ ⦃h : Host⦄ where
  step_value : Fields → String → Result ℕ
  unfolding step_number
  step_value raw key = elim (step_number (get raw key)) [
    | some n ↦ ok n
    | none ↦ invalid overview_path "program step"
  ]

  check_amounts : Fields → Result (Unit {0})
  check_amounts raw = do
    let path = overview_path
    unless_null required_uuid raw "command_id" path
    require
        (is_null (get raw "target_frequency_hz")
          || is_finite_in (nat 0) (nat 100) (get raw "target_frequency_hz"))
        path "program frequency"
    require
        (is_null (get raw "remaining_seconds")
          || is_integer_in (pos 0) (pos max_schedule_seconds) (get raw "remaining_seconds"))
        path "program remaining time"
    require
        (is_null (get raw "reason") || text_where (λ s. leb (utf16_length s) 96) (get raw "reason"))
        path "program reason"

  check_state : Fields → ℕ → ℕ → Result (Unit {0})
  unfolding is_coherent
  check_state raw index count = do
    let path = overview_path
    require (is_coherent raw index count) path "program identity"
    require
        (not
          (is_running (get raw "state") && (index == 0 || is_null (get raw "target_frequency_hz"))))
        path "program active target"
    require (not (is_text (get raw "state") "holding" && is_null (get raw "remaining_seconds")))
        path "program hold time"
    require (absent_or (get raw "supports_schedule") (is_bool (get raw "supports_schedule"))) path
        "calendar support"
    require
        (absent_or (get raw "max_schedule_seconds")
          (is_integer_in (pos 60) (pos max_schedule_seconds) (get raw "max_schedule_seconds")))
        path "calendar duration limit"

  -- raw.max_schedule_seconds ?? MAX_PROGRAM_SECONDS
  schedule_limit : Value → Value
  schedule_limit v = if is_nullish v then num (nat max_program_seconds) else v

  progress_of : Fields → Result (Option ProgramProgress)
  unfolding schedule_limit
  progress_of raw = do
    let path = overview_path
    require
        (is_nat (get raw "version") 1
          && is_bool (get raw "ready")
          && text_in program_states (get raw "state"))
        path "program progress"
    index ← step_value raw "step_index"
    count ← step_value raw "step_count"
    require (leb index count) path "program step order"
    check_amounts raw
    check_state raw index count
    ok (
        some (record {
          fields = raw;
          step_index = index;
          step_count = count;
          limit = schedule_limit (get raw "max_schedule_seconds");
        }))

  -- parseProgramProgress(raw)
  pub parse_program_progress : Value → Result (Option ProgramProgress)
  parse_program_progress raw =
      if is_nullish raw
      then ok none
      else do fields ← require_record raw overview_path "program progress"; progress_of fields

  -- `${Math.floor(n)} unit` where the amount is not 0
  amount : ℕ → String → String
  amount n unit = if n == 0 then "" else String.◌++◌ (h.number_text (nat n)) unit

  spaced : List String → String
  spaced [] = ""
  spaced (s ∷ []) = s
  spaced (s ∷ t ∷ rest) = String.◌++◌ s (String.◌++◌ " " (spaced (t ∷ rest)))

  -- durationText(seconds)
  pub duration_text : ℕ → String
  unfolding amount spaced
  duration_text seconds =
      let parts = filter_full (
        amount (seconds / 3600) " год"
        ∷ amount (seconds % 3600 / 60) " хв"
        ∷ amount (seconds % 60) " с"
        ∷ []) in
      if leb (length parts) 0 then "0 с" else spaced parts

-- programActive(progress)
pub program_active : Option ProgramProgress → Bool
program_active none = false
program_active (some p) =
    text_in ("setting" ∷ "starting" ∷ "holding" ∷ "stopping" ∷ []) (get p.fields "state")
