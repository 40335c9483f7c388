-- ===== src/Arch/Pci/Devices.antt =====
-- arch/x86_64/pci.rs: `PciDevice::new`, with its walk through the capabilities, and `enumerate_devices`.
-- The offset of a capability is one byte, so a walk of more than 256 steps over registers that do not
-- change never ends; that is a panic here.
use griffin.Common.{
  ℕ, zero, suc, ◌+◌, ◌-◌, ◌^◌, bit_and, Bool, true, false, not, ◌&&◌, List, [], ◌∷◌, ◌++◌, Outcome,
  done, panic, ◌>>=◌, u8, u16, ◌<<<◌, ◌>>>◌, ◌==◌, if◌then◌else◌,
}
use griffin.Arch.Pci.{Ports, PciDevice, pci_read, read_device}

abbrev pub msi_capability_id : ℕ
msi_capability_id = 0x5

module _ {World : Type 0} (ports : Ports World) where
  unfoldable pub has_capabilities : PciDevice → World → Bool × World
  has_capabilities d w =
      let (word, w') = read_device ports d 0x4 w in (not (bit_and (word >>> 16) (1 <<< 4) == 0), w')

  -- The loop over the capabilities, with `rounds` of them at most.
  unfoldable pub find_msi : PciDevice → ℕ → ℕ → World → Outcome (ℕ × World)
  find_msi d rounds zero w = done (0, w)
  find_msi d zero (suc offset) w = panic
  find_msi d (suc rounds) (suc offset) w =
      let (capability, w') = read_device ports d (suc offset) w in
      let rest = find_msi d rounds (u8 (capability >>> 8)) w' in
      if u8 capability == msi_capability_id then done (suc offset, w') else rest

  -- The device without its capabilities.
  unfoldable pub device_of : ℕ → ℕ → ℕ → ℕ → ℕ → PciDevice
  device_of bus device function device_vendor class = record {
    bus = bus;
    device = device;
    function = function;
    device_id = u16 (device_vendor >>> 16);
    vendor_id = u16 device_vendor;
    class = u8 (class >>> 24);
    subclass = u8 (class >>> 16);
    prog_if = u8 (class >>> 8);
    revision = u8 class;
    msi_offset = 0;
  }

  unfoldable pub pci_device : ℕ → ℕ → ℕ → World → Outcome (PciDevice × World)
  pci_device bus device function w =
      let (device_vendor, w1) = pci_read ports bus device function 0 w in
      let (class, w2) = pci_read ports bus device function 0x8 w1 in
      let d = device_of bus device function device_vendor class in
      let (capable, w3) = has_capabilities d w2 in
      elim capable [
        | false ↦ done (d, w3)
        | true ↦
            let (word, w4) = read_device ports d 0x34 w3 in
            find_msi d 256 (u8 word) w4 >>= λ (offset, w5).
            done (record d { msi_offset = offset }, w5)
      ]

  -- The body of the loops: a function that is there is added to the devices.
  unfoldable pub probe : ℕ → ℕ → ℕ → List PciDevice × World → Outcome (List PciDevice × World)
  probe bus device function (devices, w) =
      let (cnfg, w') = pci_read ports bus device function 0 w in
      elim (cnfg == 2 ^ 32 - 1) [
        | true ↦ done (devices, w')
        | false ↦ pci_device bus device function w' >>= λ (d, w''). done (devices ++ (d ∷ []), w'')
      ]

  -- `left` functions, devices and buses from a number on.
  unfoldable pub scan_functions :
      ℕ → ℕ → ℕ → ℕ → List PciDevice × World → Outcome (List PciDevice × World)
  scan_functions bus device function zero st = done st
  scan_functions bus device function (suc left) st =
      probe bus device function st >>= scan_functions bus device (function + 1) left

  unfoldable pub scan_slots : ℕ → ℕ → ℕ → List PciDevice × World → Outcome (List PciDevice × World)
  scan_slots bus device zero st = done st
  scan_slots bus device (suc left) st =
      scan_functions bus device 0 8 st >>= scan_slots bus (device + 1) left

  unfoldable pub scan_buses : ℕ → ℕ → List PciDevice × World → Outcome (List PciDevice × World)
  scan_buses bus zero st = done st
  scan_buses bus (suc left) st = scan_slots bus 0 32 st >>= scan_buses (bus + 1) left

-- `dev.class == 0x1 && dev.subclass == 0x6 && dev.prog_if == 0x1`
abbrev pub is_ahci : PciDevice → Bool
is_ahci d = (d.class == 0x1) && ((d.subclass == 0x6) && (d.prog_if == 0x1))

-- `enumerate_devices`: every controller that was found is given to `ahci::init`, a parameter here.
unfoldable pub init_each :
    {World : Type 0} → (PciDevice → World → Outcome World) → List PciDevice → World → Outcome World
init_each ahci_init [] w = done w
init_each ahci_init (d ∷ devices) w =
    (if is_ahci d then ahci_init d w else done w) >>= init_each ahci_init devices

unfoldable pub enumerate_devices :
    {World : Type 0}
    → Ports World
    → (PciDevice → World → Outcome World)
    → World
    → Outcome (List PciDevice × World)
enumerate_devices ports ahci_init w = do
  (devices, w') ← scan_buses ports 0 256 ([], w)
  w'' ← init_each ahci_init devices w'
  done (devices, w'')
