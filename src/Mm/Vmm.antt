-- ===== src/Mm/Vmm.antt =====
-- mm/vmm.rs, `VirtualMemManager`: the walk through the page tables, `map_page` and `get_mapping`.
-- `pagemap` is the physical address of the top table. `invlpg` and `switch_pagemap` change only
-- processor state (its address cache and cr3), which is not modelled, so `flush_prev` has no effect.
pub mod Tables
pub mod Next
pub mod Walk
pub mod Mapping
pub mod MapPage
pub mod Claims
use griffin.Common.{
  ℕ, Bool, Option, bit_and, bit_or, Outcome, done, ◌>>=◌, expect, ◌==◌, if◌then◌else◌,
}
use griffin.Arch.PhysAddr.{higher_half, remove_flags}
use griffin.Arch.Pmm.{Machine, calloc}
use griffin.Arch.Memory.{load, store, offset}
use griffin.Mm.Flags.{Bitflags}
use griffin.Mm.Flags.PageFlags
use griffin.Mm.VirtAddr.{pml4, pdp, pd, pt}

module _ (flags : Bitflags) where
  open flags use {union}

  -- `PRESENT | WRITABLE | USERMODE`
  abbrev pub table_flags : ℕ
  table_flags = union (union PageFlags.present PageFlags.writable) PageFlags.usermode

  -- The entry of a new table.
  unfoldable pub link : ℕ → ℕ → ℕ → Machine → ℕ × Machine
  link curr index entry m =
      (entry, store (offset (higher_half curr) index) (bit_or entry table_flags) m)

  -- A table that is missing is allocated, zeroed and linked.
  unfoldable pub get_next_level : ℕ → ℕ → Machine → Outcome (ℕ × Machine)
  get_next_level curr index m =
      let entry = load (offset (higher_half curr) index) m in
      if bit_and entry 1 == 0
      then (do (page, m') ← calloc 1 m; new ← expect page; done (link curr index new m'))
      else done (remove_flags entry, m)

  -- The page table of an address.
  unfoldable pub page_table : ℕ → ℕ → Machine → Outcome (ℕ × Machine)
  page_table pagemap addr m = do
    (pdp_table, m') ← get_next_level pagemap (pml4 addr) m
    (pd_table, m'') ← get_next_level pdp_table (pdp addr) m'
    get_next_level pd_table (pd addr) m''

  unfoldable pub map_page : ℕ → ℕ → ℕ → ℕ → Bool → Machine → Outcome Machine
  map_page pagemap virtual_addr phys_addr page_flags flush_prev m = do
    (table, m') ← page_table pagemap virtual_addr m
    done (store (offset table (pt virtual_addr)) (bit_or phys_addr page_flags) m')

  unfoldable pub get_mapping : ℕ → ℕ → Machine → Outcome (ℕ × Machine)
  get_mapping pagemap virtual_addr m = do
    (table, m') ← page_table pagemap virtual_addr m
    done (load (offset table (pt virtual_addr)) m', m')
