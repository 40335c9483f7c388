-- ===== src/Drivers/Ahci/Setup.antt =====
-- drivers/ahci.rs: `AhciDevice::new` and `init`. The registers are parameters, as in Port; the command
-- tables are pages of the allocator, mapped through the kernel's tables, which start at `pagemap`.
pub mod Slots
pub mod Tables
pub mod Devices
pub mod Disks
pub mod Init
use griffin.Common.{
  ℕ, zero, suc, ◌+◌, ◌*◌, ◌/◌, ◌^◌, bit_and, bit_or, Bool, true, List, [], ◌∷◌, ◌++◌, Outcome, done,
  panic, ◌>>=◌, expect, u32, ◌<<<◌, ◌>>>◌, ◌==◌, if◌then◌else◌, add_checked,
}
use griffin.Utils.Math.{div_ceil}
use griffin.Arch.PhysAddr.{page_size, phys_base, higher_half}
use griffin.Arch.Pci.{Ports, PciDevice, get_bar, bus_master, enable_mmio}
use griffin.Arch.Pmm.{Machine, calloc}
use griffin.Mm.Flags.{Bitflags}
use griffin.Mm.Flags.PageFlags
use griffin.Mm.Vmm.{map_page}
use griffin.Drivers.Ahci.Port.{PortRegisters, get_command_header, has_bit}

abbrev pub sata_ata : ℕ
sata_ata = 0x101

-- `size_of::<CommandTable>()`
abbrev pub command_table_size : ℕ
command_table_size = 144

-- The registers of a port that only `new` and `init` use.
pub record DeviceRegisters (World : Type 0) : Type 0 where
  pub regs : PortRegisters World
  pub interrupt_enable : World → ℕ × World
  pub set_interrupt_enable : ℕ → World → World
  pub signature : World → ℕ × World

pub record ControllerRegisters (World : Type 0) : Type 0 where
  pub capabilities : World → ℕ × World
  pub ghc : World → ℕ × World
  pub set_ghc : ℕ → World → World
  pub port_implemented : World → ℕ × World
  pub port : ℕ → DeviceRegisters World

module _ (flags : Bitflags) (pagemap : ℕ) where
  open flags use {union}

  -- `PRESENT | WRITABLE | UNCACHEABLE`
  abbrev pub uncached : ℕ
  uncached = union (union PageFlags.present PageFlags.writable) PageFlags.uncacheable

  -- The loop over the pages of a command table, from byte `i` on.
  unfoldable pub map_tables : ℕ → ℕ → ℕ → Machine → Outcome Machine
  map_tables cmd_table i zero m = done m
  map_tables cmd_table i (suc left) m = do
    base ← add_checked cmd_table phys_base
    virtual_addr ← add_checked base i
    phys_addr ← add_checked cmd_table i
    m' ← map_page flags pagemap virtual_addr phys_addr uncached true m
    map_tables cmd_table (i + page_size) left m'

  module _ {World : Type 0} where
    -- A command table of its own for a slot.
    unfoldable pub setup_slot :
        PortRegisters World → ℕ → World × Machine → Outcome (World × Machine)
    setup_slot regs i (w, m) = do
      (header_ptr, w') ← get_command_header regs i w
      cmd_table_pages ← div_ceil command_table_size page_size
      (page, m') ← calloc cmd_table_pages m
      cmd_table ← expect page
      m'' ← map_tables cmd_table 0 cmd_table_pages m'
      done (
        regs.set_header header_ptr
            (record (regs.header header_ptr w') {
              ctaddr_lower = u32 cmd_table;
              ctaddr_upper = u32 (cmd_table >>> 32);
            })
            w',
        m'',
      )

    unfoldable pub setup_slots :
        PortRegisters World → ℕ → ℕ → World × Machine → Outcome (World × Machine)
    setup_slots regs i zero s = done s
    setup_slots regs i (suc left) s = setup_slot regs i s >>= setup_slots regs (i + 1) left

    -- `AhciDevice::new`
    unfoldable pub new_device : DeviceRegisters World → World × Machine → Outcome (World × Machine)
    new_device d (w, m) =
        let (enabled, w') = d.interrupt_enable w in
        setup_slots d.regs 0 32 (d.set_interrupt_enable (bit_or enabled 1) w', m)

    -- One port in the loop of `init`; a device is known by the number of its port.
    unfoldable pub init_port :
        ControllerRegisters World
        → ℕ
        → List ℕ × (World × Machine)
        → Outcome (List ℕ × (World × Machine))
    init_port hba i (devices, (w, m)) =
        let (implemented, w1) = hba.port_implemented w in
        let (signature, w2) = (hba.port i).signature w1 in
        if has_bit implemented i
        then (if signature == sata_ata
            then (do s ← new_device (hba.port i) (w2, m); done (devices ++ (i ∷ []), s))
            else done (devices, (w2, m)))
        else done (devices, (w1, m))

    -- The ports from `i` on.
    unfoldable pub init_ports :
        ControllerRegisters World
        → ℕ
        → ℕ
        → List ℕ × (World × Machine)
        → Outcome (List ℕ × (World × Machine))
    init_ports hba i zero s = done s
    init_ports hba i (suc left) s = init_port hba i s >>= init_ports hba (i + 1) left

    -- `init`: the registers at the fifth bar are mapped, and `hba` is what they do.
    unfoldable pub ahci_init :
        Ports World
        → ControllerRegisters World
        → PciDevice
        → List ℕ
        → World × Machine
        → Outcome (List ℕ × (World × Machine))
    ahci_init ports hba device devices (w, m) = do
      (bar5, w1) ← get_bar ports device 5 w
      let w2 = enable_mmio ports device (bus_master ports device w1)
      m' ← map_page flags pagemap (higher_half bar5) bar5 uncached true m
      let (capabilities, w3) = hba.capabilities w2
      let (ghc, w4) = hba.ghc w3
      (if bit_and capabilities (1 <<< 31) == 0
          then done (devices, (w3, m'))
          else init_ports hba 0 32 (devices, (hba.set_ghc (bit_or ghc 2) w4, m')))
