-- ===== src/Utils/Math.antt =====
-- utils/math.rs. A `usize` is a number below 2 ^ 64.
pub mod Laws
use griffin.Common.{ℕ, Outcome, ◌>>=◌, add_checked, sub_checked, mul_checked, div_checked}

-- `(x + y - 1) / y`
unfoldable pub div_ceil : ℕ → ℕ → Outcome ℕ
div_ceil x y = do total ← add_checked x y; below ← sub_checked total 1; div_checked below y

-- `((number + multiple - 1) / multiple) * multiple`
unfoldable pub round_up : ℕ → ℕ → Outcome ℕ
round_up number multiple = do
  total ← add_checked number multiple
  below ← sub_checked total 1
  times ← div_checked below multiple
  mul_checked times multiple
