-- ===== src/Js/Number/Rounding.antt =====
-- Products and Math.round of JavaScript, on the fractions of Js/Number.antt.
pub mod Order
use stechbaza_iot.Prelude.{
  Bool, false, if◌then◌else◌, leb, ltb, suc, true, zero, ℕ, ◌%◌, ◌*◌, ◌+◌, ◌-◌, ◌/◌, ◌==◌, ◌^◌,
}
use stechbaza_iot.Js.Number.{Number, dyadic}
use stechbaza_iot.Prelude.Int.{pos}

-- The number of binary digits. A double is below 2 ^ 1024 and a multiple of 2 ^ -1074, so the
-- numerator of a sum has fewer than 2200 of them, which is the fuel.
unfoldable pub bit_length_from : ℕ → ℕ → ℕ
bit_length_from zero n = 0
bit_length_from (suc fuel) n = elim (n == 0) [
  | true ↦ 0
  | false ↦ suc (bit_length_from fuel (n / 2))
]

abbrev pub bit_length : ℕ → ℕ
bit_length n = bit_length_from 2200 n

-- n / d to the nearest integer, ties to the even one
unfoldable pub half_even : ℕ → ℕ → ℕ
half_even n d =
    let q = n / d in
    let r = n % d in
    if ltb (2 * r) d then q else if ltb d (2 * r) then q + 1 else if q % 2 == 0 then q else q + 1

-- n, rounded to the 53 binary digits of a double
unfoldable pub round_double : ℕ → ℕ
unfolding bit_length_from half_even
round_double n =
    let bits = bit_length n in
    if leb bits 53 then n else half_even n (2 ^ (bits - 53)) * 2 ^ (bits - 53)

-- |n / d - the nearest integer|, as a fraction with the denominator d
distance_to_integer : ℕ → ℕ → ℕ
distance_to_integer n d = let r = n % d in if ltb (2 * r) d then r else d - r

-- `Math.abs(f * 100 - Math.round(f * 100)) <= limit` for a limit a / 2 ^ b and 0 < f: the product is
-- rounded to a double, and the difference of it and the integer next to it is exact.
unfoldable pub has_two_decimals : ℕ → ℕ → Number → Bool
unfolding round_double distance_to_integer
has_two_decimals a b (dyadic (pos n) k) =
    let product = round_double (n * 100) in
    leb (distance_to_integer product (2 ^ k) * 2 ^ b) (a * 2 ^ k)
has_two_decimals a b f = false
