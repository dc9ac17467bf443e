-- ===== src/Js/Checks.antt =====
-- Tests of a value of type `unknown`, which the parsers share.
use stechbaza_iot.Prelude.{
  Bool, List, Option, String, false, if◌then◌else◌, none, not, some, true, ℕ, ◌&&◌,
}
use stechbaza_iot.Js.Number.{
  Number, integer?, is_finite, nan, nat, num_eq, num_le, num_lt, safe_integer?,
}
use stechbaza_iot.Js.Text.{is_empty, member}
use stechbaza_iot.Js.Value.{Value, arr, bool, is_nullish, keys, null, num, obj, str, undefined}
use stechbaza_iot.Prelude.Int.{leb_ℤ, pos, ℤ}

-- typeof value === "number" && test(value)
abbrev pub number_where : (Number → Bool) → Value → Bool
number_where test (num x) = test x
number_where test v = false

abbrev between : ℤ → ℤ → Option ℤ → Bool
between lo hi none = false
between lo hi (some z) = leb_ℤ lo z && leb_ℤ z hi

-- typeof value === "number" && Number.isInteger(value) && lo <= value && value <= hi
unfoldable pub is_integer_in : ℤ → ℤ → Value → Bool
is_integer_in lo hi (num x) = between lo hi (integer? x)
is_integer_in lo hi v = false

abbrev from : ℤ → Option ℤ → Bool
from lo none = false
from lo (some z) = leb_ℤ lo z

-- typeof value === "number" && Number.isSafeInteger(value) && lo <= value
unfoldable pub is_safe_from : ℤ → Value → Bool
is_safe_from lo (num x) = from lo (safe_integer? x)
is_safe_from lo v = false

-- The safe integer from 0 that the value is.
unfoldable pub count? : Value → Option ℕ
count? (num x) = elim (safe_integer? x) [ some (pos n) ↦ some n | _ ↦ none ]
count? v = none

-- typeof value === "number" && Number.isFinite(value) && lo <= value && value <= hi
unfoldable pub is_finite_in : Number → Number → Value → Bool
is_finite_in lo hi (num x) = is_finite x && num_le lo x && num_le x hi
is_finite_in lo hi v = false

-- typeof value === "number" && Number.isFinite(value) && lo < value && value <= hi
unfoldable pub is_finite_above : Number → Number → Value → Bool
is_finite_above lo hi (num x) = is_finite x && num_lt lo x && num_le x hi
is_finite_above lo hi v = false

-- typeof value === "string" && Object.hasOwn(table, value), or set.has(value), for the keys of it
abbrev pub text_in : List String → Value → Bool
text_in keys (str s) = member s keys
text_in keys v = false

-- typeof value === "string" && test(value)
abbrev pub text_where : (String → Bool) → Value → Bool
text_where test (str s) = test s
text_where test v = false

-- isRecord(value)
abbrev pub is_record : Value → Bool
is_record (obj fields) = true
is_record v = false

-- value ?? fallback
abbrev pub or_value : Value → Value → Value
or_value v fallback = if is_nullish v then fallback else v

-- Boolean(value): what `if (value)` tests
abbrev pub is_truthy : Value → Bool
is_truthy undefined = false
is_truthy null = false
is_truthy (bool b) = b
is_truthy (num nan) = false
is_truthy (num x) = not (num_eq x (nat 0))
is_truthy (str s) = not (is_empty s)
is_truthy (obj fields) = true
is_truthy (arr xs) = true
