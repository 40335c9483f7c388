-- ===== src/Utils/Math/Laws.antt =====
-- What `div_ceil` and `round_up` return.
use native.Mathlib.Nat.{div-add-mod', mod-lt, mul-mod_left}
use griffin.Common.{ℕ, ◌+◌, ◌-◌, ◌*◌, ◌/◌, ◌%◌, ◌^◌, ◌≤◌, ◌<◌, ◌≡◌, arith, done}
use griffin.Utils.Math.{div_ceil, round_up}

-- The quotient that `div_ceil` returns, as arithmetic.
abbrev pub ceil : ℕ → ℕ → ℕ
ceil x y = (x + y - 1) / y

pub div_ceil-done : (x y : ℕ) → 0 < y → x + y < 2 ^ 64 → div_ceil x y ≡ done (ceil x y)
unfolding div_ceil
div_ceil-done x y pos fits = ground arith

-- `ceil x y` is the least number of pieces of size `y` that hold `x`.
pub ceil_bounds : (x y : ℕ) → 0 < y → (x ≤ ceil x y * y) × (ceil x y * y < x + y)
ceil_bounds x y pos =
    let split = div-add-mod' (x + y - 1) y in
    let small = mod-lt (x + y - 1) pos in (omega (arith, split, small), omega (arith, split, small))

round_up-done : (x y : ℕ) → 0 < y → x + y < 2 ^ 64 → round_up x y ≡ done (ceil x y * y)
unfolding round_up
round_up-done x y pos fits = ground (arith, ceil_bounds x y pos)

-- `div_ceil x y` returns the least number of pieces of size `y` that hold `x`, for
-- a positive `y` and a sum below 2^64.
pub div_ceil_lem :
    (x y : ℕ)
    → 0 < y
    → x + y < 2 ^ 64
    → (q : ℕ) × (div_ceil x y ≡ done q) × (x ≤ q * y) × (q * y < x + y)
div_ceil_lem x y pos fits =
    let (holds, least) = ceil_bounds x y pos in (ceil x y, div_ceil-done x y pos fits, holds, least)

-- `round_up x y` returns the least multiple of `y` that is not below `x`, for
-- a positive `y` and a sum below 2^64.
pub round_up_lem :
    (x y : ℕ)
    → 0 < y
    → x + y < 2 ^ 64
    → (r : ℕ) × (round_up x y ≡ done r) × (r % y ≡ 0) × (x ≤ r) × (r < x + y)
round_up_lem x y pos fits =
    let (holds, least) = ceil_bounds x y pos in
    (ceil x y * y, round_up-done x y pos fits, mul-mod_left (ceil x y) y, holds, least)
