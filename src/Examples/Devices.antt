-- ===== src/Examples/Devices.antt =====
-- Configuration space behind the two ports, and the ranges of an address space.
use griffin.Common.{
  ℕ, zero, suc, ◌+◌, ◌^◌, ◌<◌, ◌≡◌, refl, false, Option, none, some, [], ◌∷◌, get_elem?, arith,
  Outcome, done, panic, ◌==◌, if◌then◌else◌,
}
use griffin.Arch.Pci.{Ports, PciDevice, address, pci_read, pci_write, get_bar, set_command, set_msi}
use griffin.Mm.Ranges.{VirtMemoryRange, get_range, meets}
use griffin.Mm.Ranges.Lookup.{IsRange, get_range-IsRange}

-- The selected register and the registers' content.
abbrev Space : Type 0
Space = ℕ × (ℕ → ℕ)

abbrev select : ℕ → ℕ → Space → Space
select port value (at, regs) =
    if port == 0xcf8 then (value, regs) else (at, λ a. if a == at then value else regs a)

abbrev ports : Ports Space
ports = record { outl = select; port_in = λ port w. (w.1 w.0, w) }

abbrev disk : PciDevice
disk = record {
  bus = 0;
  device = 31;
  function = 2;
  device_id = 0x2922;
  vendor_id = 0x8086;
  class = 1;
  subclass = 6;
  prog_if = 1;
  revision = 2;
  msi_offset = 0x80;
}

-- The device's fifth bar is at 0xfebf1000, in 32-bit memory.
abbrev registers : Space
registers = (0, λ a. if a == 0x8000_fa24 then 0xfebf_1000 else 0)

abbrev value_of : Outcome (ℕ × Space) → Option ℕ
value_of panic = none
value_of (done (v, w)) = some v

bar : value_of (get_bar ports disk 5 registers) ≡ some 0xfebf_1000
unfolding get_bar pci_read address
bar = refl

abbrev register_of : ℕ → Outcome Space → ℕ
register_of a panic = 0
register_of a (done (at, regs)) = regs a

command : (set_command ports 4 disk registers).1 0x8000_fa04 ≡ 4
unfolding set_command pci_read pci_write address
command = refl

msi_enabled : register_of 0x8000_fa80 (set_msi ports disk 33 registers) ≡ 0x1_0000
unfolding set_msi pci_read pci_write address
msi_enabled = refl

same_register : address 0 31 2 0x24 ≡ address 0 31 2 0x27
unfolding address
same_register = refl

abbrev range : VirtMemoryRange ℕ
range = record { base = 0x1000; length = 0x2000; prot = 3; flags = 2; file_offset = 0; fd = none }

range_found : get_range 0x1001 (range ∷ []) ≡ done (some range)
unfolding get_range
range_found = refl

base_not_found : get_range 0x1000 (range ∷ []) ≡ done none
unfolding get_range
base_not_found = refl

-- A new range that contains the old one meets it at neither end.
around : meets 0x800 0x4000 (range ∷ []) ≡ done false
unfolding meets
around = refl

range_fits :
    (j : ℕ) (d : VirtMemoryRange ℕ) → get_elem? (range ∷ []) j ≡ some d → d.base + d.length < 2 ^ 64
range_fits zero d e = let same : range ≡ d = ground arith in rw (← same) (omega arith)
range_fits (suc j) d e = absurd (ground arith)

just_inside : IsRange 0x1001 (range ∷ []) (get_range 0x1001 (range ∷ []))
just_inside = get_range-IsRange 0x1001 (range ∷ []) range_fits
