-- ===== src/Api/Series/Count.antt =====
-- The number of buckets in a window of frontend/src/lib/api/telemetry-series.ts.
use native.Mathlib.Nat.{div-eq_of_lt, div-eq-sub-div, div-zero}
use stechbaza_iot.Prelude.{ap, arith, dec_le, suc, zero, ℕ, ◌+◌, ◌-◌, ◌/◌, ◌<◌, ◌∙◌, ◌≡◌, ◌≤◌}
use stechbaza_iot.Api.Errors.Retry.{ceil_div}
use stechbaza_iot.Api.Series.Answer.{bucket_count}
use stechbaza_iot.Prelude.Int.{pos_part_sub, int_laws, pos, pos_part, ℤ, ◌+ℤ◌, ◌-ℤ◌, ◌<ℤ◌, ◌≤ℤ◌}

-- As many buckets as a window needs: each begins before its end, and after the last nothing is left.
abbrev pub Needs : ℕ → ℤ → ℤ → ℕ → Type 0
Needs width begins ends zero = ends ≤ℤ begins
Needs width begins ends (suc n) = (begins <ℤ ends) × Needs width (begins +ℤ pos width) ends n

ceil_div-zero : (n d : ℕ) → 0 < d → ceil_div n d ≡ 0 → n ≡ 0
ceil_div-zero n d positive e = elim (dec_le 1 n) [
  | yes some_left ↦
      let step = div-eq-sub-div {m = d} {n = n + (d - 1)} positive (omega arith) in omega arith
  | no nothing ↦ omega arith
]

ceil_div-suc : (n d k : ℕ) → 0 < d → ceil_div n d ≡ suc k → (0 < n) × (ceil_div (n - d) d ≡ k)
ceil_div-suc n d k positive e = elim (dec_le 1 n) [
  | yes some_left ↦ elim (dec_le d n) [
    | yes wide ↦
        let step = div-eq-sub-div {m = d} {n = n + (d - 1)} positive (omega arith) in
        let shifted : n + (d - 1) - d ≡ n - d + (d - 1) = omega arith in
        let same = ap (λ t. t / d) shifted in (some_left, omega arith)
    | no small ↦ (
      some_left,
      let none_left = div-eq_of_lt {n = n - d + (d - 1)} {m = d} (omega arith) in
          let one_left = div-eq-sub-div {m = d} {n = n + (d - 1)} positive (omega arith) in
          let nothing = div-eq_of_lt {n = n + (d - 1) - d} {m = d} (omega arith) in omega arith,
    )
  ]
  | no nothing ↦
      let none_left = div-eq_of_lt {n = n + (d - 1)} {m = d} (omega arith) in absurd (omega arith)
]

pub bucket_count-Needs :
    (n width : ℕ) (begins ends : ℤ)
    → 0 < width
    → bucket_count begins ends width ≡ n
    → Needs width begins ends n
unfolding bucket_count
bucket_count-Needs zero width begins ends positive e =
    let gap = ceil_div-zero (pos_part (ends -ℤ begins)) width positive e in
    let left = pos_part_sub ends begins in omega arith
bucket_count-Needs (suc n) width begins ends positive e =
    let (some_left, rest) = ceil_div-suc (pos_part (ends -ℤ begins)) width n positive e in
    let left = pos_part_sub ends begins in
    let after = pos_part_sub ends (begins +ℤ pos width) in
    let fewer : pos_part (ends -ℤ (begins +ℤ pos width)) ≡ pos_part (ends -ℤ begins) - width =
      omega int_laws in
    (
      omega arith,
      bucket_count-Needs n width (begins +ℤ pos width) ends positive
          (ap (λ t. ceil_div t width) fewer ∙ rest),
    )

-- A window of at least one bucket has buckets of at least one second.
pub bucket_count-positive :
    (begins ends : ℤ) (width : ℕ) → 1 ≤ bucket_count begins ends width → 0 < width
unfolding bucket_count
bucket_count-positive begins ends zero some_left =
    let none_left = div-zero (pos_part (ends -ℤ begins) + (0 - 1)) in absurd (omega arith)
bucket_count-positive begins ends (suc w) some_left = omega arith
