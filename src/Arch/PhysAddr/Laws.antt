-- ===== src/Arch/PhysAddr/Laws.antt =====
-- The two halves of the address space, and the address part of a page-table entry.
use griffin.Common.{ℕ, ◌+◌, ◌-◌, ◌*◌, ◌/◌, ◌%◌, ◌^◌, ◌<◌, bit_or, ◌≡◌, arith}
use griffin.Bits.Digits.{bit_and-bit_or, bit_or_comm}
use griffin.Bits.Masks.{bit_or_fields, bit_and_mask, bit_and-shl, bit_or-zero}
use griffin.Arch.PhysAddr.{phys_base, higher_half, lower_half, remove_flags}

-- Below 2 ^ 47 the two bases do not overlap, and `higher_half` is a sum.
pub higher_half_sum : (a : ℕ) → a < 2 ^ 47 → higher_half a ≡ a + phys_base
unfolding higher_half
higher_half_sum a h = omega (arith, bit_or_comm a phys_base, bit_or_fields 47 0x1ffff a h)

pub lower_half_mod : (a : ℕ) → lower_half a ≡ a % 2 ^ 47
unfolding lower_half
lower_half_mod a = bit_and_mask 47 a

pub lower_half-higher_half : (a : ℕ) → a < 2 ^ 47 → lower_half (higher_half a) ≡ a
lower_half-higher_half a h = omega (arith, higher_half_sum a h, lower_half_mod (higher_half a))

-- The address part of an entry is its bits 12 to 51.
pub remove_flags_fields : (a : ℕ) → remove_flags a ≡ a / 4096 % 2 ^ 40 * 4096
unfolding remove_flags
remove_flags_fields a = omega (arith, bit_and-shl 12 a (2 ^ 40 - 1), bit_and_mask 40 (a / 2 ^ 12))

-- An aligned address below 2 ^ 52 survives flags that lie outside the address part.
pub remove_flags-bit_or :
    (a f : ℕ) → a % 4096 ≡ 0 → a < 2 ^ 52 → remove_flags f ≡ 0 → remove_flags (bit_or a f) ≡ a
unfolding remove_flags
remove_flags-bit_or a f aligned fits none_inside =
    rw (bit_and-bit_or, none_inside, bit_or-zero)
      (let e = remove_flags_fields a in omega (arith, e))
