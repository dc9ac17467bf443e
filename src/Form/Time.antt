-- ===== src/Form/Time.antt =====
-- frontend/src/lib/time-input.ts: a time of the day, as it is typed.
pub mod Minutes
mod Tests
use stechbaza_iot.Prelude.{
  Bool, Char, Option, String, code, false, if◌then◌else◌, is_some, leb, ltb, none, not, some, true,
  ℕ, ◌&&◌, ◌*◌, ◌+◌, ◌-◌, ◌==◌, ◌||◌, ◌∷◌,
}
use stechbaza_iot.Js.Text.{is_empty, trim}

abbrev pub is_digit : Char → Bool
is_digit c = leb b'0' (code c) && leb (code c) b'9'

abbrev pub digit_of : Char → ℕ
digit_of c = code c - b'0'

abbrev pub is_char : Char → ℕ → Bool
is_char c n = code c == n

-- The hours, of one digit or two, and the minutes, of two.
pub data Parts : Type 0 where
  one_digit : Char → Char → Char → Parts
  two_digits : Char → Char → Char → Char → Parts

unfoldable pub hours : Parts → ℕ
hours (one_digit b m n) = digit_of b
hours (two_digits a b m n) = digit_of a * 10 + digit_of b

unfoldable pub minutes : Parts → ℕ
minutes (one_digit b m n) = digit_of m * 10 + digit_of n
minutes (two_digits a b m n) = digit_of m * 10 + digit_of n

-- The end of the text, or the seconds `:00`
abbrev ends : String → Bool
ends String.[] = true
ends (String.◌∷◌ c (String.◌∷◌ d (String.◌∷◌ e String.[]))) =
    is_char c b':' && is_char d b'0' && is_char e b'0'
ends s = false

-- `:`, two digits of minutes, and the end
unfoldable pub after_hours : (Char → Char → Parts) → String → Option Parts
after_hours parts (String.◌∷◌ c (String.◌∷◌ m (String.◌∷◌ n rest))) =
    if is_char c b':' && is_digit m && is_digit n && ends rest then some (parts m n) else none
after_hours parts s = none

-- /^(\d{1,2}):(\d{2})(?::00)?$/
unfoldable pub with_colon : String → Option Parts
with_colon (String.◌∷◌ a (String.◌∷◌ b rest)) =
    if not (is_digit a)
    then none
    else if is_digit b
    then after_hours (two_digits a b) rest
    else after_hours (one_digit a) (String.◌∷◌ b rest)
with_colon s = none

-- /^(\d{1,2})(\d{2})$/ where `complete`, and else /^(\d{2})(\d{2})$/
unfoldable pub compact : Bool → String → Option Parts
compact complete (String.◌∷◌ a (String.◌∷◌ b (String.◌∷◌ c String.[]))) =
    if complete && is_digit a && is_digit b && is_digit c then some (one_digit a b c) else none
compact complete (String.◌∷◌ a (String.◌∷◌ b (String.◌∷◌ c (String.◌∷◌ d String.[])))) =
    if is_digit a && is_digit b && is_digit c && is_digit d then some (two_digits a b c d) else none
compact complete s = none

unfoldable pub or_else : Option Parts → Option Parts → Option Parts
or_else none q = q
or_else (some p) q = some p

-- The groups of the pattern that matches the trimmed text
unfoldable pub parts_of : String → Bool → Option Parts
parts_of value complete =
    let input = trim value in or_else (with_colon input) (compact complete input)

-- `${hours.padStart(2, "0")}:${minutes}`
unfoldable pub clock_text : Parts → String
clock_text (one_digit b m n) =
    String.◌∷◌ "0" (String.◌∷◌ b (String.◌∷◌ ":" (String.◌∷◌ m (String.◌∷◌ n String.[]))))
clock_text (two_digits a b m n) =
    String.◌∷◌ a (String.◌∷◌ b (String.◌∷◌ ":" (String.◌∷◌ m (String.◌∷◌ n String.[]))))

unfoldable pub normalized : String → Option Parts → String
normalized value none = value
normalized value (some p) = if ltb 23 (hours p) || ltb 59 (minutes p) then value else clock_text p

-- normalizeTimeInput(value, complete)
unfoldable pub normalize_time_input : String → Bool → String
normalize_time_input value complete = normalized value (parts_of value complete)

-- /^(?:[01]\d|2[0-3]):[0-5]\d$/, and the time as the two numbers that `split(":")` gives
unfoldable pub clock_of : String → Option (ℕ × ℕ)
clock_of (String.◌∷◌ a (String.◌∷◌ b (String.◌∷◌ c (String.◌∷◌ m (String.◌∷◌ n String.[]))))) =
    if ((leb b'0' (code a) && leb (code a) b'1' && is_digit b)
        || (is_char a b'2' && leb b'0' (code b) && leb (code b) b'3'))
      && is_char c b':'
      && leb b'0' (code m)
      && leb (code m) b'5'
      && is_digit n
    then some (digit_of a * 10 + digit_of b, digit_of m * 10 + digit_of n)
    else none
clock_of s = none

-- timeInputError(value): the text that it returns
pub data TimeError : Type 0 where
  missing_time : TimeError
  wrong_time : TimeError

unfoldable pub time_input_error : String → Option TimeError
time_input_error value =
    if is_empty value
    then some missing_time
    else if is_some (clock_of (normalize_time_input value true))
    then none
    else some wrong_time

unfoldable pub minutes_of : Option (ℕ × ℕ) → Option ℕ
minutes_of none = none
minutes_of (some (hour, minute)) = some (hour * 60 + minute)

-- minuteOfDay(value)
unfoldable pub minute_of_day : String → Option ℕ
minute_of_day value =
    if is_some (time_input_error value)
    then none
    else minutes_of (clock_of (normalize_time_input value true))
