-- ===== src/Mm/VirtAddr.antt =====
-- mm/vmm.rs, `VirtAddr` and `PageMapping`. A virtual address is a number below 2 ^ 64.
pub mod Laws
use griffin.Common.{ℕ, bit_and, Bool, not, ◌==◌, ◌>>>◌, u16}
use griffin.Arch.PhysAddr.{remove_flags}
use griffin.Mm.Flags.PageFlags

unfoldable pub pml4 : ℕ → ℕ
pml4 addr = u16 (bit_and (addr >>> 39) 0x1ff)

unfoldable pub pdp : ℕ → ℕ
pdp addr = u16 (bit_and (addr >>> 30) 0x1ff)

unfoldable pub pd : ℕ → ℕ
pd addr = u16 (bit_and (addr >>> 21) 0x1ff)

unfoldable pub pt : ℕ → ℕ
pt addr = u16 (bit_and (addr >>> 12) 0x1ff)

-- `PageMapping`: a page-table entry.
unfoldable pub phys_addr : ℕ → ℕ
phys_addr entry = remove_flags entry

unfoldable pub has_flag : ℕ → ℕ → Bool
has_flag flag entry = not (bit_and entry flag == 0)

unfoldable pub is_present : ℕ → Bool
unfolding has_flag
is_present entry = has_flag PageFlags.present entry

unfoldable pub is_writable : ℕ → Bool
unfolding has_flag
is_writable entry = has_flag PageFlags.writable entry

unfoldable pub is_usermode : ℕ → Bool
unfolding has_flag
is_usermode entry = has_flag PageFlags.usermode entry

unfoldable pub is_uncacheable : ℕ → Bool
unfolding has_flag
is_uncacheable entry = has_flag PageFlags.uncacheable entry

unfoldable pub is_mmaped : ℕ → Bool
unfolding has_flag
is_mmaped entry = has_flag PageFlags.mmaped entry

unfoldable pub is_non_exec : ℕ → Bool
unfolding has_flag
is_non_exec entry = has_flag PageFlags.nx entry
