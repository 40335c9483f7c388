-- ===== src/Arch/Pci.antt =====
-- arch/x86_64/pci.rs: the configuration space and the devices on the buses. `inl` and `outl` are
-- instructions: `Ports` is what they do to the state of the hardware.
pub mod Address
pub mod Devices
use griffin.Common.{
  ℕ, zero, suc, ◌+◌, ◌*◌, ◌^◌, bit_and, bit_or, Bool, true, false, not, Outcome, done, panic, ◌>>=◌,
  u8, u16, u32, ◌<<<◌, ◌>>>◌, ltb, ◌==◌, if◌then◌else◌,
}

pub record Ports (World : Type 0) : Type 0 where
  pub outl : ℕ → ℕ → World → World
  pub port_in : ℕ → World → ℕ × World

abbrev pub config_addr : ℕ
config_addr = 0xcf8

abbrev pub config_data : ℕ
config_data = 0xcfc

pub record PciDevice : Type 0 where
  pub bus : ℕ
  pub device : ℕ
  pub function : ℕ
  pub device_id : ℕ
  pub vendor_id : ℕ
  pub class : ℕ
  pub subclass : ℕ
  pub prog_if : ℕ
  pub revision : ℕ
  pub msi_offset : ℕ

-- The word that selects a register; `read` and `write` both compute it.
unfoldable pub address : ℕ → ℕ → ℕ → ℕ → ℕ
address bus device function offset =
    bit_or
      (bit_or (bit_or (bit_or 0x80000000 (bus <<< 16)) (bit_and device 0x1f <<< 11))
        (bit_and function 0x7 <<< 8))
      (bit_and offset 0xfc)

-- `a + b` on `u8`, which panics on overflow
abbrev pub add_u8 : ℕ → ℕ → Outcome ℕ
add_u8 a b = if ltb (a + b) (2 ^ 8) then done (a + b) else panic

module _ {World : Type 0} (ports : Ports World) where
  open ports use {outl, port_in}

  unfoldable pub pci_read : ℕ → ℕ → ℕ → ℕ → World → ℕ × World
  pci_read bus device function offset w =
      port_in config_data (outl config_addr (address bus device function offset) w)

  unfoldable pub pci_write : ℕ → ℕ → ℕ → ℕ → ℕ → World → World
  pci_write value bus device function offset w =
      outl config_data value (outl config_addr (address bus device function offset) w)

  abbrev pub read_device : PciDevice → ℕ → World → ℕ × World
  read_device d offset w = pci_read d.bus d.device d.function offset w

  abbrev pub write_device : PciDevice → ℕ → ℕ → World → World
  write_device d value offset w = pci_write value d.bus d.device d.function offset w

  -- A bar in memory space, of 64 or of 32 bits.
  abbrev pub memory_bar : PciDevice → ℕ → ℕ → World → Outcome (ℕ × World)
  memory_bar d offset bar w =
      if bit_and bar 6 == 4
      then (do
        upper ← add_u8 offset 4
        let (high, w') = read_device d upper w
        done (bit_or (bit_and bar 0xfffffff0) (high <<< 32), w'))
      else done (bit_and bar 0xfffffff0, w)

  unfoldable pub get_bar : PciDevice → ℕ → World → Outcome (ℕ × World)
  get_bar d bar_num w = do
    step ← (if ltb (bar_num * 4) (2 ^ 8) then done (bar_num * 4) else panic)
    offset ← add_u8 0x10 step
    let (bar, w') = read_device d offset w
    if bit_and bar 1 == 1 then done (bit_and bar 0xfffffffc, w') else memory_bar d offset bar w'

  -- `command_reg |= bit` of `bus_master` and `enable_mmio`
  unfoldable pub set_command : ℕ → PciDevice → World → World
  set_command bit d w =
      let (command_reg, w') = read_device d 0x4 w in write_device d (bit_or command_reg bit) 0x4 w'

  abbrev pub bus_master : PciDevice → World → World
  bus_master d w = set_command 4 d w

  abbrev pub enable_mmio : PciDevice → World → World
  enable_mmio d w = set_command 2 d w

  unfoldable pub set_msi : PciDevice → ℕ → World → Outcome World
  set_msi d vector w = if d.msi_offset == 0 then panic else (do
    let (word, w1) = read_device d d.msi_offset w
    let control = bit_and (word >>> 16) 0xffff
    let data_reg_offset = if bit_and control (1 <<< 7) == 0 then 0x8 else 0xc
    data_reg ← add_u8 d.msi_offset data_reg_offset
    let (old, w2) = read_device d data_reg w1
    let msi_data = bit_or (bit_and old 0xffff0000) (u32 (bit_and vector 0xff))
    address_reg ← add_u8 d.msi_offset 0x4
    let w3 = write_device d (bit_or 0xfee00000 (1 <<< 3)) address_reg w2
    let w4 = write_device d msi_data data_reg w3
    done (write_device d (bit_or control 1 <<< 16) d.msi_offset w4))

  abbrev pub get_header_type : ℕ → ℕ → ℕ → World → ℕ × World
  get_header_type bus device function w =
      let (res, w') = pci_read bus device function 0xc w in (u8 (res >>> 16), w')
