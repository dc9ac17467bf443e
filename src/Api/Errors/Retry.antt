-- ===== src/Api/Errors/Retry.antt =====
-- frontend/src/lib/api/errors.ts: the Retry-After header.
use stechbaza_iot.Prelude.{ℕ, ◌+◌, ◌-◌, ◌/◌, ◌^◌, ◌&&◌, String, Option, none, some, if◌then◌else◌}
use stechbaza_iot.Prelude.Int.{ℤ, pos_part, neg_part}
use stechbaza_iot.Js.Number.{Number, dyadic, num_le, nat, is_finite}
use stechbaza_iot.Js.Text.{is_empty}
use stechbaza_iot.Host.{Host}

-- ⌈a / b⌉, for 0 < b
abbrev pub ceil_div : ℕ → ℕ → ℕ
ceil_div a b = (a + (b - 1)) / b

-- Math.ceil of a number that is finite and not negative
unfoldable pub ceil : Number → ℕ
ceil (dyadic n k) = ceil_div (pos_part n) (2 ^ k)
ceil a = 0

-- Math.max(0, Math.ceil((a - b) / 1000)): 0 where b is not before a
abbrev pub seconds_until : ℤ → ℤ → ℕ
seconds_until a b = ceil_div ((pos_part a + neg_part b) - (pos_part b + neg_part a)) 1000

module _ ⦃h : Host⦄ where
  retry_date : Option ℤ → ℤ → Option ℕ
  retry_date none now = none
  retry_date (some timestamp) now = some (seconds_until timestamp now)

  retry_text : String → ℤ → Option ℕ
  unfolding retry_date ceil
  retry_text value now =
      let seconds = h.to_number value in
      if is_finite seconds && num_le (nat 0) seconds
      then some (ceil seconds)
      else retry_date (h.date_parse value) now

  unfoldable pub parse_retry_after : Option String → ℤ → Option ℕ
  unfolding retry_text
  parse_retry_after none now = none
  parse_retry_after (some value) now = if is_empty value then none else retry_text value now
