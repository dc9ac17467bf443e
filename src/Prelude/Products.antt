-- ===== src/Prelude/Products.antt =====
-- Orders of products of natural numbers.
use Prim.Native.Nat.{ℕ, ◌*◌, ◌≤◌, ◌<◌}
use native.Mathlib.Omega.{arith}

pub mul-le : (a b u : ℕ) → a ≤ b → a * u ≤ b * u
mul-le a b u h = grind arith

pub mul-lt : (a b u : ℕ) → a < b → 0 < u → a * u < b * u
mul-lt a b u h k = grind arith
