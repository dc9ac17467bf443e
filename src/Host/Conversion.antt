-- ===== src/Host/Conversion.antt =====
-- The conversions String(value) and Number(value) of JavaScript for a parsed JSON value.
use Prim.Native.String
use stechbaza_iot.Prelude.{String, if◌then◌else◌}
use stechbaza_iot.Host.{Host}
use stechbaza_iot.Js.Number.{Number, nan, nat}
use stechbaza_iot.Js.Value.{
  Items, Value, arr, bool, cons, is_nullish, nil, null, num, obj, str, undefined,
}

-- An array is written as its elements with commas between them, where null and undefined are empty.
unfoldable mutual
  pub string_of : ⦃h : Host⦄ → Value → String
  string_of undefined = "undefined"
  string_of null = "null"
  string_of (bool b) = if b then "true" else "false"
  string_of ⦃h⦄ (num x) = h.number_text x
  string_of (str s) = s
  string_of (obj fields) = "[object Object]"
  string_of (arr xs) = joined_items xs

  pub joined_items : ⦃h : Host⦄ → Items → String
  joined_items nil = ""
  joined_items (cons v r) =
      String.◌++◌ (let s = string_of v in if is_nullish v then "" else s) (more_items r)

  -- the elements after the first
  pub more_items : ⦃h : Host⦄ → Items → String
  more_items nil = ""
  more_items (cons v r) =
      String.◌++◌ ","
        (String.◌++◌ (let s = string_of v in if is_nullish v then "" else s) (more_items r))

-- Number(value)
unfoldable pub number_of : ⦃h : Host⦄ → Value → Number
number_of undefined = nan
number_of null = nat 0
number_of (bool b) = if b then nat 1 else nat 0
number_of (num x) = x
number_of ⦃h⦄ (str s) = h.to_number s
number_of (obj fields) = nan
number_of ⦃h⦄ (arr xs) = h.to_number (joined_items xs)
