-- ===== src/Js/Number/Sum.antt =====
-- Sums, differences and a division of JavaScript, rounded to the nearest double.
pub mod Later
use stechbaza_iot.Prelude.{if◌then◌else◌, leb, suc, ℕ, ◌*◌, ◌+◌, ◌-◌, ◌/◌, ◌^◌}
use stechbaza_iot.Js.Number.{Number, dyadic, infinity, nan, nat, neg_infinity, num_lt, scale}
use stechbaza_iot.Js.Number.Rounding.{bit_length, bit_length_from, half_even, round_double}
use stechbaza_iot.Prelude.Int.{negsuc, pos, ℤ, ◌+ℤ◌}

-- z / 2 ^ k, rounded to a double; what is 2 ^ 1024 or more is infinite.
abbrev pub rounded : ℤ → ℕ → Number
rounded (pos n) k =
    let r = round_double n in if leb (2 ^ (1024 + k)) r then infinity else dyadic (pos r) k
rounded (negsuc n) k =
    let r = round_double (suc n) in
    if leb (2 ^ (1024 + k)) r then neg_infinity else dyadic (negsuc (r - 1)) k

-- a + b
unfoldable pub num_add : Number → Number → Number
num_add nan b = nan
num_add infinity nan = nan
num_add infinity neg_infinity = nan
num_add infinity b = infinity
num_add neg_infinity nan = nan
num_add neg_infinity infinity = nan
num_add neg_infinity b = neg_infinity
num_add (dyadic n k) nan = nan
num_add (dyadic n k) infinity = infinity
num_add (dyadic n k) neg_infinity = neg_infinity
num_add (dyadic n k) (dyadic m l) = rounded (scale n (2 ^ l) +ℤ scale m (2 ^ k)) (k + l)

-- n / 1000 to 53 binary digits, as a fraction over 2 ^ 64: the quotient of a positive n over
-- 2 ^ 64 has at least 55 digits.
unfoldable pub thousandth : ℕ → ℕ
unfolding bit_length_from half_even
thousandth n =
    let extra = 2 ^ (bit_length (n * 2 ^ 64 / 1000) - 53) in
    half_even (n * 2 ^ 64) (1000 * extra) * extra

-- Math.max(0, (a - b) / 1000), for the integer z that a - b is before it is rounded
unfoldable pub seconds_of : ℤ → Number
unfolding thousandth
seconds_of (pos n) = dyadic (pos (thousandth (round_double n))) 64
seconds_of (negsuc n) = nat 0

-- Math.max(0, a)
unfoldable pub non_negative : Number → Number
non_negative nan = nan
non_negative a = if num_lt a (nat 0) then nat 0 else a
