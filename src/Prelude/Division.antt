-- ===== src/Prelude/Division.antt =====
-- Division of natural numbers.
use Prim.Native.Nat.{ℕ, ◌+◌, ◌*◌, ◌/◌, ◌<◌, ◌≤◌}
use native.Mathlib.Omega.{arith}

pub div_bounds : (n d : ℕ) → 0 < d → (n / d * d ≤ n) × (n < n / d * d + d)
div_bounds n d h = (grind arith, grind arith)
