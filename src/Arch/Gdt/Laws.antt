-- ===== src/Arch/Gdt/Laws.antt =====
-- The processor finds the task state where `load_tss` put it.
use griffin.Common.{ℕ, ◌+◌, ◌*◌, ◌^◌, ◌<◌, ◌≡◌, refl, arith}
use griffin.Arch.Gdt.{TssEntry, Gdt, set_base, load_tss}

-- The base as the processor puts it together.
abbrev pub base_of : TssEntry → ℕ
base_of e = e.base1 + 2 ^ 16 * e.base2 + 2 ^ 24 * e.base3 + 2 ^ 32 * e.base4

-- After `load_tss` the base of the task state's descriptor is the address, for an address below
-- 2^64, and its limit, its flags and the other segments are as they were.
pub base_of-load_tss :
    (tss_addr : ℕ) (g : Gdt)
    → tss_addr < 2 ^ 64
    → (base_of (load_tss tss_addr g).0.tss ≡ tss_addr)
      × ((load_tss tss_addr g).0.tss.limit ≡ g.tss.limit)
      × ((load_tss tss_addr g).0.tss.flags1 ≡ g.tss.flags1)
      × (record (load_tss tss_addr g).0 { tss = g.tss } ≡ g)
unfolding load_tss set_base
base_of-load_tss tss_addr g h = (omega arith, refl, refl, refl)
