-- ===== src/Arch/PhysAddr.antt =====
-- arch/x86_64/mm/pmm.rs, `PhysAddr` and its constants. An address is a number below 2 ^ 64. The
-- bootloader maps all physical memory twice, at its own addresses and from `phys_base` on, so the
-- memory behind a pointer is that at its lower half.
pub mod Laws
use griffin.Common.{ℕ, ◌-◌, ◌^◌, bit_and, bit_or}

abbrev pub page_size : ℕ
page_size = 4096

abbrev pub phys_base : ℕ
phys_base = 0xffff800000000000

-- `!x` on a 64-bit word
abbrev pub not64 : ℕ → ℕ
not64 x = 2 ^ 64 - 1 - x

unfoldable pub higher_half : ℕ → ℕ
higher_half addr = bit_or addr phys_base

unfoldable pub lower_half : ℕ → ℕ
lower_half addr = bit_and addr (not64 phys_base)

-- Removes the bits of a page-table entry that say how the page is mapped.
unfoldable pub remove_flags : ℕ → ℕ
remove_flags addr = bit_and addr 0x000ffffffffff000
