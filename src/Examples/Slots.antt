-- ===== src/Examples/Slots.antt =====
-- A controller's port on a machine with 62 free pages, whose registers are plain cells.
use griffin.Common.{
  ℕ, zero, suc, ◌+◌, ◌^◌, ◌/◌, ◌<◌, ◌≡◌, refl, false, [], ◌∷◌, get_or, replicate, arith, ◌==◌,
  if◌then◌else◌,
}
use griffin.Utils.Bitmap.Laws.{bit_of}
use griffin.Arch.PhysAddr.{page_size, phys_base}
use griffin.Arch.Pmm.{Pmm, Machine}
use griffin.Arch.Pmm.Alloc.{IsPmm}
use griffin.Mm.Vmm.Tables.{IsPaging}
use griffin.Drivers.Ahci.Command.{CommandHeader}
use griffin.Drivers.Ahci.Port.{PortRegisters, get_command_header}
use griffin.Drivers.Ahci.Setup.{DeviceRegisters, ControllerRegisters, new_device}
use griffin.Arch.Pci.{Ports, PciDevice}
use griffin.Drivers.Ahci.Setup.Disks.{disks}
use griffin.Drivers.Ahci.Setup.Slots.{HasHeaders, enabled_port}
use griffin.Drivers.Ahci.Setup.Devices.{IsSetUp, new_device-IsSetUp}
use griffin.Examples.Ports.{blank_table}
use griffin.Examples.Paging.{plain, place, place_only}

abbrev Headers : Type 0
Headers = ℕ → CommandHeader

abbrev blank : CommandHeader
blank = record {
  cfl_awp = 0;
  rbc_rsv_pmp = 0;
  prdtl = 0;
  prdbc = 0;
  ctaddr_lower = 0;
  ctaddr_upper = 0;
  reserved = [];
}

abbrev cells : PortRegisters Headers
cells = record {
  clb_lower = λ w. (0x2000, w);
  clb_higher = λ w. (0, w);
  interrupt_status = λ w. (0, w);
  sact = λ w. (0, w);
  ci = λ w. (0, w);
  set_ci = λ v w. w;
  header = λ p w. w p;
  set_header = λ p h w q. if p == q then h else w q;
  table = λ p w. blank_table;
  set_table = λ p t w. w;
}

cells-HasHeaders : HasHeaders cells (0x2000 + phys_base)
unfolding get_command_header
cells-HasHeaders = record {
  at_base = λ slot w. refl;
  here = λ p h w. ground arith;
  others = λ p q h w ne. ground arith;
}

abbrev first_port : DeviceRegisters Headers
first_port = record {
  regs = cells;
  interrupt_enable = λ w. (0, w);
  set_interrupt_enable = λ v w. w;
  signature = λ w. (0x101, w);
}

abbrev roomy : Pmm
roomy = record { data_ptr = 0; bytes = 0xfc ∷ replicate 7 0xff; size = 8 }

full_bytes : (n i : ℕ) → get_or (replicate n 0xff) i 0 < 256
full_bytes zero i = omega arith
full_bytes (suc n) zero = omega arith
full_bytes (suc n) (suc i) = full_bytes n i

roomy_bytes : (i : ℕ) → get_or roomy.bytes i 0 < 256
roomy_bytes zero = omega arith
roomy_bytes (suc i) = full_bytes 7 i

roomy-IsPmm : IsPmm roomy
unfolding bit_of
roomy-IsPmm = record {
  valid = record { same_size = refl; is_byte = roomy_bytes };
  fits = omega arith;
  first_used = refl;
}

abbrev empty_tables : Machine
empty_tables = record { pmm = roomy; memory = λ a. 0 }

used_page : (t : ℕ) → t ≡ 4096 → bit_of roomy (t / page_size) ≡ false
unfolding bit_of
used_page t e = rw e refl

empty_tables-IsPaging : IsPaging 4096 place empty_tables
empty_tables-IsPaging = record {
  pmm = roomy-IsPmm;
  root = refl;
  aligned = λ t π e. omega (arith, place_only t π e);
  low = λ t π e. omega (arith, place_only t π e);
  used = λ t π e. used_page t (place_only t π e);
  linked = λ t i π e above hi there. absurd (there refl);
}

new_device-IsSetUp_example :
    IsSetUp plain 4096 cells
      (0x2000 + phys_base)
      0
      32
      (enabled_port first_port (λ p. blank), empty_tables)
      (new_device plain 4096 first_port (λ p. blank, empty_tables))
new_device-IsSetUp_example =
    new_device-IsSetUp plain first_port (0x2000 + phys_base) (λ p. blank) cells-HasHeaders
      empty_tables-IsPaging

abbrev kinds : ℕ → ℕ
kinds i = if i == 1 then 0x101 else 0xffff_ffff

-- Ports 0 and 1 are there; the second has a disk.
abbrev two_ports : ControllerRegisters Headers
two_ports = record {
  capabilities = λ w. (2 ^ 31, w);
  ghc = λ w. (0, w);
  set_ghc = λ v w. w;
  port_implemented = λ w. (3, w);
  port = λ i. record first_port { signature = λ w. (kinds i, w) };
}

-- The bars of the controller read as the address of its registers.
abbrev config : Ports Headers
config = record { outl = λ port v w. w; port_in = λ port w. (0xfebf_0000, w) }

abbrev controller : PciDevice
controller = record {
  bus = 0;
  device = 5;
  function = 0;
  device_id = 0;
  vendor_id = 0;
  class = 0;
  subclass = 0;
  prog_if = 0;
  revision = 0;
  msi_offset = 0;
}

only_second : disks 3 kinds 0 32 ≡ 1 ∷ []
unfolding disks
only_second = refl
