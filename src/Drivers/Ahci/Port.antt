-- ===== src/Drivers/Ahci/Port.antt =====
-- drivers/ahci.rs: the registers of a port, and a command from its slot to its result. The registers
-- are volatile: `PortRegisters` is what reads and writes do to the state of the hardware, and the
-- structs in memory are read and written at their addresses. That the loop which waits for the command
-- does not end is a panic here.
pub mod Slots
use griffin.Common.{
  ℕ, zero, suc, ◌+◌, ◌*◌, ◌^◌, bit_and, bit_or, Bool, true, false, not, Option, none, some, Outcome,
  done, panic, ◌>>=◌, expect, ◌<<<◌, ◌==◌, if◌then◌else◌, add_checked,
}
use griffin.Arch.PhysAddr.{phys_base, lower_half}
use griffin.Drivers.Ahci.Command.{CommandHeader, CommandTable, fill_header, fill_table}

pub record PortRegisters (World : Type 0) : Type 0 where
  pub clb_lower : World → ℕ × World
  pub clb_higher : World → ℕ × World
  pub interrupt_status : World → ℕ × World
  pub sact : World → ℕ × World
  pub ci : World → ℕ × World
  pub set_ci : ℕ → World → World
  pub header : ℕ → World → CommandHeader
  pub set_header : ℕ → CommandHeader → World → World
  pub table : ℕ → World → CommandTable
  pub set_table : ℕ → CommandTable → World → World

-- `size_of::<CommandHeader>()`
abbrev pub header_size : ℕ
header_size = 32

-- `lower as u64 | (upper as u64) << 32) + PHYS_BASE`
abbrev pub join_address : ℕ → ℕ → Outcome ℕ
join_address lower upper = add_checked (bit_or lower (upper <<< 32)) phys_base

-- Bit `i` of a register is set.
abbrev pub has_bit : ℕ → ℕ → Bool
has_bit word i = if bit_and word (1 <<< i) == 0 then false else true

module _ {World : Type 0} (regs : PortRegisters World) where
  open regs use {
    clb_lower, clb_higher, interrupt_status, sact, ci, set_ci, header, set_header, table, set_table,
  }

  -- The loop of `get_slot` at slot `i` with `left` rounds to go.
  unfoldable pub find_slot : ℕ → ℕ → World → Option ℕ × World
  find_slot i zero w = (none, w)
  find_slot i (suc left) w =
      let (active, w1) = sact w in
      let (issued, w2) = ci w1 in
      let rest = find_slot (i + 1) left w2 in
      if has_bit (bit_or active issued) i then rest else (some i, w2)

  unfoldable pub get_slot : World → Option ℕ × World
  unfolding find_slot
  get_slot w = find_slot 0 32 w

  -- The address of the header of a slot.
  unfoldable pub get_command_header : ℕ → World → Outcome (ℕ × World)
  get_command_header slot w =
      let (lower, w1) = clb_lower w in
      let (upper, w2) = clb_higher w1 in
      join_address lower upper >>= λ base. done (base + slot * header_size, w2)

  -- The loop after the command was issued, and the test behind it: false is `Err(())`.
  unfoldable pub wait : ℕ → ℕ → World → Outcome (Bool × World)
  wait slot zero w = panic
  wait slot (suc rounds) w =
      let (issued, w1) = ci w in
      let (status, w2) = interrupt_status w1 in
      let rest = wait slot rounds w2 in
      if has_bit issued slot
      then (if has_bit status 30 then done (false, w2) else rest)
      else done (not (has_bit status 30), w2)

  -- From the buffer's virtual address. The result is what the controller counted, or `Err(())`.
  unfoldable pub send_command : ℕ → ℕ → ℕ → Bool → ℕ → World → Outcome (Option ℕ × World)
  send_command lba sectors buffer write rounds w =
      let (free, w1) = get_slot w in
      expect free >>= λ slot. get_command_header slot w1 >>= λ (header_ptr, w2).
      let h = fill_header write (header header_ptr w2) in
      let w3 = set_header header_ptr h w2 in
      join_address h.ctaddr_lower h.ctaddr_upper >>= λ table_ptr.
      fill_table (lower_half buffer) lba sectors write (table table_ptr w3) >>= λ t.
      wait slot rounds (set_ci (1 <<< slot) (set_table table_ptr t w3)) >>= λ (ended, w4).
      done (if ended then some (header header_ptr w4).prdbc else none, w4)
