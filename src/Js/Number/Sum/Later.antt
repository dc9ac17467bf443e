-- ===== src/Js/Number/Sum/Later.antt =====
-- A sum of which one part grows, compared with a whole number.
use native.Mathlib.Nat.{mul-le-mul_right}
use stechbaza_iot.Prelude.{
  Bool, Bool-cases, ap, arith, false, if◌then◌else◌, inl, inr, leb, refl, suc, true, ℕ, ◌*◌, ◌+◌,
  ◌^◌, ◌∙◌, ◌≡◌, ◌≤◌,
}
use stechbaza_iot.Js.Number.{Number, dyadic, infinity, nat, neg_infinity, num_lt, scale}
use stechbaza_iot.Js.Number.Rounding.{round_double}
use stechbaza_iot.Js.Number.Rounding.Order.{round_double_mono}
use stechbaza_iot.Js.Number.Sum.{non_negative, num_add, rounded}
use stechbaza_iot.Prelude.Int.{+ℤ_mono, negsuc, pos, sub_ℕ, ℤ, ◌≤ℤ◌}

sub_ℕ-zero : (a : ℕ) → sub_ℕ a 0 ≡ pos a
sub_ℕ-zero a = ground arith

scale-pos : (n m : ℕ) → scale (pos n) m ≡ pos (n * m)
scale-pos n m =
    let nothing : 0 * m ≡ 0 = omega arith in ap (sub_ℕ (n * m)) nothing ∙ sub_ℕ-zero (n * m)

negative-le : (t r k : ℕ) → num_lt (nat t) (dyadic (negsuc r) k) ≡ false
unfolding num_lt
negative-le t r k = ground arith

positive-le :
    (t r s k : ℕ)
    → r ≤ s
    → num_lt (nat t) (dyadic (pos s) k) ≡ false
    → num_lt (nat t) (dyadic (pos r) k) ≡ false
unfolding num_lt
positive-le t r s k h e = ground (arith, scale-pos t (2 ^ k))

rounded-positive :
    (t r s limit k : ℕ)
    → r ≤ s
    → num_lt (nat t) (if leb limit s then infinity else dyadic (pos s) k) ≡ false
    → num_lt (nat t) (if leb limit r then infinity else dyadic (pos r) k) ≡ false
unfolding num_lt
rounded-positive t r s limit k h e = elim (Bool-cases (leb limit s)) [
  | inl over ↦ cc (rw over at e)
  | inr under ↦
      let smaller : leb limit r ≡ false = ground arith in
      rw smaller (positive-le t r s k h (rw under at e))
]

rounded-negative :
    (t r k : ℕ) (test : Bool)
    → num_lt (nat t) (if test then neg_infinity else dyadic (negsuc r) k) ≡ false
unfolding num_lt
rounded-negative t r k true = refl
rounded-negative t r k false = negative-le t r k

rounded-le :
    (t k : ℕ) (y z : ℤ)
    → y ≤ℤ z
    → num_lt (nat t) (rounded z k) ≡ false
    → num_lt (nat t) (rounded y k) ≡ false
rounded-le t k (pos n) (pos m) h e =
    rounded-positive t _ _ (2 ^ (1024 + k)) k (round_double_mono n m (omega arith)) e
rounded-le t k (pos n) (negsuc m) h e = absurd (omega arith)
rounded-le t k (negsuc n) z h e =
    rounded-negative t _ k (leb (2 ^ (1024 + k)) (round_double (suc n)))

-- If a sum is not over a whole number, it is not either with a smaller second part.
pub num_add-le :
    (x : Number) (t early late l : ℕ)
    → early ≤ late
    → num_lt (nat t) (num_add x (dyadic (pos late) l)) ≡ false
    → num_lt (nat t) (num_add x (dyadic (pos early) l)) ≡ false
unfolding num_add
num_add-le (dyadic n k) t early late l h e =
    rounded-le t (k + l) _ _
      (+ℤ_mono (scale n (2 ^ l)) (scale n (2 ^ l)) _ _ (omega arith) (
        rw (scale-pos early (2 ^ k))
          (rw (scale-pos late (2 ^ k)) (let wider = mul-le-mul_right (2 ^ k) h in omega arith))))
      e
num_add-le x t early late l h e = e

pub non_negative-pos : (n k : ℕ) → non_negative (dyadic (pos n) k) ≡ dyadic (pos n) k
unfolding non_negative num_lt
non_negative-pos n k = rw (scale-pos 0 (2 ^ k)) (rw (scale-pos n 1) (ground arith))
