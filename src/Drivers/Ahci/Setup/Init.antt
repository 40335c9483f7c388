-- ===== src/Drivers/Ahci/Setup/Init.antt =====
-- `init` of the controller: its registers are mapped before they are used, and its disks are found.
use griffin.Common.{
  ℕ, ◌≡◌, bit_and, bit_or, Option, List, Outcome, done, panic, ◌<<<◌, ◌==◌, if◌then◌else◌,
}
use griffin.Arch.PhysAddr.{higher_half}
use griffin.Arch.Pci.{Ports, PciDevice, bus_master, enable_mmio}
use griffin.Arch.Pmm.{Machine}
use griffin.Mm.Flags.{Bitflags}
use griffin.Mm.Vmm.Tables.{translate, Place, IsPaging, FewFree}
use griffin.Mm.Vmm.Mapping.{page_of}
use griffin.Drivers.Ahci.Setup.{ControllerRegisters, uncached}
use griffin.Drivers.Ahci.Setup.Disks.{IsFound}

module _ {World : Type 0} (flags : Bitflags) (pagemap : ℕ) (ports : Ports World)
    (hba : ControllerRegisters World) (there : ℕ) (kind base : ℕ → ℕ) (device : PciDevice) where
  -- Bus mastering and memory access are switched on, in this order, before a register is read.
  abbrev pub switched_on : World → World
  switched_on w = enable_mmio ports device (bus_master ports device w)

  -- The registers at `bar5` are mapped uncached where the kernel sees them; nothing else changes.
  abbrev pub AreMapped : ℕ → Machine → Machine → Type 0
  AreMapped bar5 m m' =
      (a : ℕ)
      → translate m'.memory pagemap a ≡ (
          if page_of (higher_half bar5) == page_of a
          then bit_or bar5 (uncached flags pagemap)
          else translate m.memory pagemap a)

  -- The outcomes behind the read of the bar: at most two pages are free; the controller has no 64-bit
  -- addresses, and nothing but the mapping is done; or the interrupts are switched on and the disks
  -- are searched.
  pub data IsInit (bar5 : ℕ) (devices : List ℕ) (w : World) (m : Machine)
      : Outcome (List ℕ × (World × Machine)) → Type 0 where
    no_page : FewFree 2 m.pmm → IsInit bar5 devices w m panic
    narrow :
        (m' : Machine) (place' : ℕ → Option Place)
        → IsPaging pagemap place' m'
        → AreMapped bar5 m m'
        → bit_and (hba.capabilities (switched_on w)).0 (1 <<< 31) ≡ 0
        → IsInit bar5 devices w m (done (devices, ((hba.capabilities (switched_on w)).1, m')))
    searched :
        (m' : Machine) (place' : ℕ → Option Place)
        → IsPaging pagemap place' m'
        → AreMapped bar5 m m'
        → (w' : World)
        → w'
          ≡ hba.set_ghc
              (bit_or (hba.ghc (hba.capabilities (switched_on w)).1).0 2)
              (hba.ghc (hba.capabilities (switched_on w)).1).1
        → (r : Outcome (List ℕ × (World × Machine)))
        → IsFound flags pagemap hba there kind base 0 32 devices w' m' r
        → IsInit bar5 devices w m r
