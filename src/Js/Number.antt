-- ===== src/Js/Number.antt =====
-- The numbers of JavaScript. A finite double is a fraction n / 2 ^ k, which is exact: the tests of
-- the language (`===`, `<`, `<=`, `Number.isInteger`) are decided on the fraction.
pub mod Rounding
pub mod Sum
use stechbaza_iot.Prelude.{
  ℕ, ◌+◌, ◌-◌, ◌*◌, ◌/◌, ◌%◌, ◌^◌, Bool, true, false, not, ◌&&◌, Option, none, some, leb, ◌==◌,
  if◌then◌else◌,
}
use stechbaza_iot.Prelude.Int.{ℤ, pos, pos_part, neg_part, sub_ℕ, ltb_ℤ}

pub data Number : Type 0 where
  nan : Number
  infinity : Number
  neg_infinity : Number
  -- `dyadic n k` is n / 2 ^ k.
  dyadic : ℤ → ℕ → Number

abbrev pub int : ℤ → Number
int n = dyadic n 0

abbrev pub nat : ℕ → Number
nat n = int (pos n)

-- z * m
abbrev pub scale : ℤ → ℕ → ℤ
scale z m = sub_ℕ (pos_part z * m) (neg_part z * m)

-- a < b
unfoldable pub num_lt : Number → Number → Bool
num_lt nan b = false
num_lt (dyadic n k) nan = false
num_lt infinity b = false
num_lt neg_infinity nan = false
num_lt neg_infinity neg_infinity = false
num_lt neg_infinity infinity = true
num_lt neg_infinity (dyadic m l) = true
num_lt (dyadic n k) infinity = true
num_lt (dyadic n k) neg_infinity = false
num_lt (dyadic n k) (dyadic m l) = ltb_ℤ (scale n (2 ^ l)) (scale m (2 ^ k))

is_nan : Number → Bool
is_nan nan = true
is_nan a = false

-- a <= b
unfoldable pub num_le : Number → Number → Bool
unfolding num_lt is_nan
num_le a b = not (is_nan a) && not (is_nan b) && not (num_lt b a)

-- a === b
unfoldable pub num_eq : Number → Number → Bool
unfolding num_le
num_eq a b = num_le a b && num_le b a

-- Number.isFinite
unfoldable pub is_finite : Number → Bool
is_finite (dyadic n k) = true
is_finite a = false

abbrev exact_div : ℤ → ℕ → Option ℤ
exact_div z m =
    if (pos_part z % m == 0) && (neg_part z % m == 0)
    then some (sub_ℕ (pos_part z / m) (neg_part z / m))
    else none

-- The integer that the number is, where Number.isInteger holds.
unfoldable pub integer? : Number → Option ℤ
integer? (dyadic n k) = exact_div n (2 ^ k)
integer? a = none

-- Number.MAX_SAFE_INTEGER
abbrev pub max_safe : ℕ
max_safe = 2 ^ 53 - 1

abbrev pub magnitude : ℤ → ℕ
magnitude z = pos_part z + neg_part z

abbrev when_safe : Option ℤ → Option ℤ
when_safe none = none
when_safe (some z) = if leb (magnitude z) max_safe then some z else none

-- The integer that the number is, where Number.isSafeInteger holds.
unfoldable pub safe_integer? : Number → Option ℤ
unfolding integer?
safe_integer? a = when_safe (integer? a)
