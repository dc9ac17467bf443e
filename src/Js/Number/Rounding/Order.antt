-- ===== src/Js/Number/Rounding/Order.antt =====
-- The order of numbers under the rounding to a double.
use native.Mathlib.Nat.{
  div-add-mod', le-div_iff_mul-le, mul-div_cancel, mul-mod_left, pow-le-pow_right, pow-suc,
  mul_assoc, one-le-pow, mul-le-mul_right,
}
use stechbaza_iot.Prelude.{
  Bool, ap, arith, dec_le, false, if◌then◌else◌, leb, le→leb, refl, subst, suc, sym, true, zero, ℕ,
  ◌%◌, ◌*◌, ◌+◌, ◌-◌, ◌/◌, ◌<◌, ◌^◌, ◌∙◌, ◌≡◌, ◌≤◌,
}
use stechbaza_iot.Js.Number.Rounding.{bit_length, bit_length_from, half_even, round_double}

-- The digits of a number
bits_mono : (fuel n m : ℕ) → n ≤ m → bit_length_from fuel n ≤ bit_length_from fuel m
unfolding bit_length_from
bits_mono zero n m h = omega arith
bits_mono (suc fuel) n m h =
    let deeper = bits_mono fuel (n / 2) (m / 2) (omega arith) in ground arith

bits-above : (fuel n : ℕ) → bit_length_from fuel n < fuel → n < 2 ^ bit_length_from fuel n
unfolding bit_length_from
bits-above zero n h = omega arith
bits-above (suc fuel) n h =
    let deeper : bit_length_from fuel (n / 2) < fuel → n / 2 < 2 ^ bit_length_from fuel (n / 2) =
      bits-above fuel (n / 2) in
    ground (arith, pow-suc 2 (bit_length_from fuel (n / 2)))

bits-below : (fuel n b : ℕ) → bit_length_from fuel n ≡ suc b → 2 ^ b ≤ n
unfolding bit_length_from
bits-below zero n b h = omega arith
bits-below (suc fuel) n zero h = ground arith
bits-below (suc fuel) n (suc b) h =
    let deeper : bit_length_from fuel (n / 2) ≡ suc b → 2 ^ b ≤ n / 2 = bits-below fuel (n / 2) b in
    ground (arith, pow-suc 2 b)

-- n / d to the nearest integer lies between the integers around it.
half_even-bounds : (n d : ℕ) → (n / d ≤ half_even n d) × (half_even n d ≤ n / d + 1)
unfolding half_even
half_even-bounds n d = ground arith

half_even-exact : (c d : ℕ) → 0 < d → half_even (c * d) d ≡ c
unfolding half_even
half_even-exact c d positive = rw (mul-div_cancel c positive) (rw (mul-mod_left c d) (ground arith))

half_even-same : (n m d : ℕ) → n / d ≡ m / d → n % d ≤ m % d → half_even n d ≤ half_even m d
unfolding half_even
half_even-same n m d same h = ground arith

half_even_mono : (n m d : ℕ) → 0 < d → n ≤ m → half_even n d ≤ half_even m d
half_even_mono n m d positive h = elim (dec_le (m / d) (n / d)) [
  | yes none_between ↦
      let of_n = div-add-mod' n d in
      let of_m = div-add-mod' m d in
      let below = (le-div_iff_mul-le {x = n / d} {y = m} positive).1 (omega arith) in
      let same : n / d ≡ m / d = omega arith in
      let whole = ap (λ q. q * d) same in half_even-same n m d same (omega arith)
  | no between ↦
      let (a, low) = half_even-bounds n d in let (high, b) = half_even-bounds m d in omega arith
]

pow-sum : (a b : ℕ) → 2 ^ (a + b) ≡ 2 ^ a * 2 ^ b
pow-sum a zero =
    let nothing : a + 0 ≡ a = omega arith in let same = ap (λ k. 2 ^ k) nothing in omega arith
pow-sum a (suc b) =
    let next : a + suc b ≡ suc (a + b) = omega arith in
    ap (λ k. 2 ^ k) next
    ∙ pow-suc 2 (a + b)
    ∙ ap (λ k. k * 2) (pow-sum a b)
    ∙ mul_assoc (2 ^ a) (2 ^ b) 2
    ∙ ap (λ k. 2 ^ a * k) (sym (pow-suc 2 b))

-- What is at most 2 ^ b is rounded to at most that, and the same from below.
round-below : (n s c : ℕ) → n ≤ c * 2 ^ s → half_even n (2 ^ s) * 2 ^ s ≤ c * 2 ^ s
round-below n s c h =
    let some_unit = one-le-pow s 2 (omega arith) in
    mul-le-mul_right (2 ^ s) (
      subst (λ t. half_even n (2 ^ s) ≤ t) (half_even-exact c (2 ^ s) (omega arith))
        (half_even_mono n (c * 2 ^ s) (2 ^ s) (omega arith) h))

round-above : (n s c : ℕ) → c * 2 ^ s ≤ n → c * 2 ^ s ≤ half_even n (2 ^ s) * 2 ^ s
round-above n s c h =
    let some_unit = one-le-pow s 2 (omega arith) in
    mul-le-mul_right (2 ^ s) (
      subst (λ t. t ≤ half_even n (2 ^ s)) (half_even-exact c (2 ^ s) (omega arith))
        (half_even_mono (c * 2 ^ s) n (2 ^ s) (omega arith) h))

bits-bounded : (fuel n : ℕ) → bit_length_from fuel n ≤ fuel
unfolding bit_length_from
bits-bounded zero n = omega arith
bits-bounded (suc fuel) n = let deeper = bits-bounded fuel (n / 2) in ground arith

if-chosen : (test : Bool) (x y : ℕ) → test ≡ true → (if test then x else y) ≡ x
if-chosen test x y e = rw e refl

if-passed : (test : Bool) (x y : ℕ) → test ≡ false → (if test then x else y) ≡ y
if-passed test x y e = rw e refl

round_exact : (n : ℕ) → bit_length n ≤ 53 → round_double n ≡ n
unfolding round_double
round_exact n h = if-chosen (leb (bit_length n) 53) _ _ (le→leb (bit_length n) 53 h)

shift_of : (bits s : ℕ) → bits ≡ 53 + suc s → bits - 53 ≡ suc s
shift_of bits s h = omega arith

round_shifted :
    (n s : ℕ) → bit_length n ≡ 53 + suc s → round_double n ≡ half_even n (2 ^ suc s) * 2 ^ suc s
unfolding round_double
round_shifted n s h =
    let long : leb (bit_length n) 53 ≡ false = rw h (ground arith) in
    let more = shift_of (bit_length n) s h in
    if-passed (leb (bit_length n) 53) _ _ long ∙ ap (λ e. half_even n (2 ^ e) * 2 ^ e) more

round-at_most : (n b : ℕ) → bit_length n ≤ b → 53 ≤ b → b < 2200 → round_double n ≤ 2 ^ b
round-at_most n b h wide room = elim (dec_le (bit_length n) 53) [
  | yes short ↦
      let low = bits-above 2200 n (omega arith) in
      let up = pow-le-pow_right {n = 2} (omega arith) h in
      let exact = round_exact n short in omega arith
  | no long ↦
      let low = bits-above 2200 n (omega arith) in
      let up = pow-le-pow_right {n = 2} (omega arith) h in
      let split : bit_length n ≡ 53 + suc (bit_length n - 54) = omega arith in
      let shifted = round_shifted n (bit_length n - 54) split in
      let parts = ap (λ e. 2 ^ e) split ∙ pow-sum 53 (suc (bit_length n - 54)) in
      let below = round-below n (suc (bit_length n - 54)) (2 ^ 53) (omega arith) in omega arith
]

round-at_least : (m b : ℕ) → bit_length m ≡ suc b → 53 ≤ b → 2 ^ b ≤ round_double m
round-at_least m b h wide =
    let low = bits-below 2200 m b h in
    let split : bit_length m ≡ 53 + suc (b - 53) = omega arith in
    let shifted = round_shifted m (b - 53) split in
    let whole : b ≡ 52 + suc (b - 53) = omega arith in
    let parts = ap (λ e. 2 ^ e) whole ∙ pow-sum 52 (suc (b - 53)) in
    let above = round-above m (suc (b - 53)) (2 ^ 52) (omega arith) in omega arith

round-same :
    (n m s : ℕ)
    → bit_length n ≡ 53 + suc s
    → bit_length m ≡ 53 + suc s
    → n ≤ m
    → round_double n ≤ round_double m
round-same n m s of_n of_m h =
    let some_unit = one-le-pow (suc s) 2 (omega arith) in
    let shifted_n = round_shifted n s of_n in
    let shifted_m = round_shifted m s of_m in
    let keeps = mul-le-mul_right (2 ^ suc s) (half_even_mono n m (2 ^ suc s) (omega arith) h) in
    omega arith

pub round_double_mono : (n m : ℕ) → n ≤ m → round_double n ≤ round_double m
round_double_mono n m h =
    let fewer = bits_mono 2200 n m h in
    let bounded = bits-bounded 2200 m in
    elim (dec_le (bit_length m) 53) [
      | yes short ↦
          let a = round_exact n (omega arith) in let b = round_exact m short in omega arith
      | no long ↦ elim (dec_le (bit_length m) (bit_length n)) [
        | yes as_many ↦ round-same n m (bit_length m - 54) (omega arith) (omega arith) h
        | no more ↦
            let a = round-at_most n (bit_length m - 1) (omega arith) (omega arith) (omega arith) in
            let b = round-at_least m (bit_length m - 1) (omega arith) (omega arith) in omega arith
      ]
    ]
