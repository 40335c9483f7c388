-- ===== src/Common/Words.antt =====
-- Machine words as native numbers: shifts, casts, and the widths that the kernel uses.
use Prim.Native.Nat.{ℕ, ◌-◌, ◌*◌, ◌/◌, ◌%◌, ◌^◌, ◌+◌}
use griffin.Common.Tests.{ltb, leb, ◌==◌, if◌then◌else◌}
use griffin.Common.Panics.{Outcome, done, panic}

infixl 75 ◌<<<◌ ◌>>>◌
abbrev pub ◌<<<◌ : ℕ → ℕ → ℕ
x <<< k = x * 2 ^ k

abbrev pub ◌>>>◌ : ℕ → ℕ → ℕ
x >>> k = x / 2 ^ k

-- `x as u8`, `x as u16`, `x as u32` and the wrap of 64-bit arithmetic
abbrev pub u8 : ℕ → ℕ
u8 x = x % 2 ^ 8

abbrev pub u16 : ℕ → ℕ
u16 x = x % 2 ^ 16

abbrev pub u32 : ℕ → ℕ
u32 x = x % 2 ^ 32

abbrev pub u64 : ℕ → ℕ
u64 x = x % 2 ^ 64

-- Arithmetic on `usize` and `u64` with the overflow checks of the debug profile, which the
-- Makefile builds.
abbrev pub add_checked : ℕ → ℕ → Outcome ℕ
add_checked a b = if ltb (a + b) (2 ^ 64) then done (a + b) else panic

-- A result of arithmetic on `u32`.
abbrev pub checked32 : ℕ → Outcome ℕ
checked32 n = if ltb n (2 ^ 32) then done n else panic

abbrev pub sub_checked : ℕ → ℕ → Outcome ℕ
sub_checked a b = if leb b a then done (a - b) else panic

abbrev pub mul_checked : ℕ → ℕ → Outcome ℕ
mul_checked a b = if ltb (a * b) (2 ^ 64) then done (a * b) else panic

abbrev pub div_checked : ℕ → ℕ → Outcome ℕ
div_checked a b = if b == 0 then panic else done (a / b)
