-- ===== src/Drivers/Hpet/Setup.antt =====
-- drivers/hpet.rs, `init`: the timer's registers are found, mapped and switched on.
use griffin.Common.{
  ℕ, ◌+◌, ◌^◌, ◌<◌, ◌≡◌, bit_or, true, Option, some, List, [], ◌∷◌, Outcome, done, panic, ◌>>=◌,
  expect, arith, ltb, ◌==◌, if◌then◌else◌, add_checked,
}
use griffin.Arch.Acpi.{AcpiMemory, Rsdp, find_table}
use griffin.Arch.PhysAddr.{phys_base}
use griffin.Arch.Pmm.{Machine}
use griffin.Mm.Flags.{Bitflags}
use griffin.Mm.Flags.PageFlags
use griffin.Mm.Vmm.{map_page}
use griffin.Mm.Vmm.Tables.{translate, Place, IsPaging, FewFree}
use griffin.Mm.Vmm.Mapping.{page_of}
use griffin.Mm.Vmm.MapPage.{IsMap, map_page-IsMap}

-- `*b"HPET"`
abbrev pub hpet_signature : List ℕ
hpet_signature = 0x48 ∷ 0x50 ∷ 0x45 ∷ 0x54 ∷ []

-- The field `address` of the packed `HpetTable`.
abbrev pub table_address_field : ℕ
table_address_field = 44

module _ {World : Type 0} (flags : Bitflags) (pagemap : ℕ) (memory : AcpiMemory) (rsdp : Rsdp)
    (set_general_config : ℕ → ℕ → World → World) where
  open flags use {union}

  -- `PRESENT | WRITABLE | UNCACHEABLE`
  abbrev pub register_flags : ℕ
  register_flags = union (union PageFlags.present PageFlags.writable) PageFlags.uncacheable

  -- With the address of the registers, through which the timer is used from then on.
  unfoldable pub hpet_init : World × Machine → Outcome (ℕ × (World × Machine))
  hpet_init (w, m) = do
    found ← find_table memory rsdp hpet_signature
    table ← expect found
    let address = memory.word64 (table + table_address_field)
    virtual_addr ← add_checked address phys_base
    m' ← map_page flags pagemap virtual_addr address register_flags true m
    done (address, (set_general_config address 1 w, m'))

  -- The outcomes, for a table at `table`: its registers are mapped uncached where the kernel sees
  -- physical memory, every other page translates as before, and the timer is switched on at its
  -- physical address; or a panic since at most two pages are free.
  pub data IsReady (table : ℕ) (w : World) (m : Machine)
      : Outcome (ℕ × (World × Machine)) → Type 0 where
    ready :
        (m' : Machine) (place' : ℕ → Option Place)
        → IsPaging pagemap place' m'
        → ((a : ℕ)
            → translate m'.memory pagemap a ≡ (
                if page_of (memory.word64 (table + table_address_field) + phys_base) == page_of a
                then bit_or (memory.word64 (table + table_address_field)) register_flags
                else translate m.memory pagemap a))
        → IsReady table w m (
            done (
              memory.word64 (table + table_address_field),
              (set_general_config (memory.word64 (table + table_address_field)) 1 w, m'),
            ))
    no_page : FewFree 2 m.pmm → IsReady table w m panic

  -- Where the firmware has the timer's table, with an address in the lower half, `init` has one of
  -- these outcomes.
  pub hpet_init-IsReady :
      {place : ℕ → Option Place} (table : ℕ) (w : World) (m : Machine)
      → IsPaging pagemap place m
      → find_table memory rsdp hpet_signature ≡ done (some table)
      → memory.word64 (table + table_address_field) < 2 ^ 47
      → IsReady table w m (hpet_init (w, m))
  unfolding hpet_init
  hpet_init-IsReady table w m paging found low =
      let address = memory.word64 (table + table_address_field) in
      let small : ltb (address + phys_base) (2 ^ 64) ≡ true = ground arith in
      rw (found, small)
        (go (map_page-IsMap flags paging (address + phys_base) address register_flags true))
    where
      go :
          {r : Outcome Machine}
          → IsMap flags pagemap m
              (memory.word64 (table + table_address_field) + phys_base)
              (bit_or (memory.word64 (table + table_address_field)) register_flags)
              r
          → IsReady table w m (
              r >>= λ m'. done (
                memory.word64 (table + table_address_field),
                (set_general_config (memory.word64 (table + table_address_field)) 1 w, m'),
              ))
      go (IsMap.mapped m' place' ok one reads claims) = ready m' place' ok one
      go (IsMap.no_page few) = IsReady.no_page few
