-- ===== src/Arch/Interrupts.antt =====
-- arch/x86_64/interrupts.rs: the gates of the interrupt table and the choice of a free vector. `lidt`
-- is not modelled; Stubs is the assembly around a handler.
pub mod Laws
pub mod Stubs
use griffin.Common.{
  ℕ, zero, suc, ◌+◌, ◌%◌, ◌^◌, Option, none, some, List, Outcome, done, panic, ◌>>=◌, bit_and,
  ◌>>>◌, u16, u32, ltb, ◌==◌, if◌then◌else◌, length, get_elem?, replicate,
}
use griffin.Common

pub record IdtGate : Type 0 where
  pub offset1 : ℕ
  pub selector : ℕ
  pub ist : ℕ
  pub gate_type : ℕ
  pub offset2 : ℕ
  pub offset3 : ℕ
  pub zeros : ℕ

abbrev pub idt_gate : ℕ → ℕ → ℕ → ℕ → IdtGate
idt_gate offset ist gate_type selector = record {
  offset1 = u16 (bit_and offset 0xffff);
  selector = selector;
  ist = ist;
  gate_type = gate_type;
  offset2 = u16 (bit_and (offset >>> 16) 0xffff);
  offset3 = u32 (offset >>> 32);
  zeros = 0;
}

-- The table of 256 gates.
abbrev pub Idt : Type 0
Idt = List IdtGate

abbrev pub empty_idt : Idt
empty_idt = replicate 256 (idt_gate 0 0 0 0)

unfoldable pub register_isr : ℕ → ℕ → ℕ → ℕ → Idt → Outcome Idt
register_isr vector addr ist gate_type idt =
    if ltb vector (length idt)
    then done (Common.set idt vector (idt_gate addr ist gate_type 0x8))
    else panic

-- `for i in i..i + left`
unfoldable pub free_vector : ℕ → ℕ → Idt → Outcome (Option ℕ)
free_vector i zero idt = done none
free_vector i (suc left) idt =
    let rest = free_vector (i + 1) left idt in
    elim (get_elem? idt i) [
      | none ↦ panic
      | some gate ↦ if gate.gate_type == 0 then done (some i) else rest
    ]

unfoldable pub alloc_vector : Idt → Outcome (Option ℕ)
unfolding free_vector
alloc_vector idt = free_vector 32 224 idt

-- `init`, up to the load of the table: the gates of the two exceptions that the kernel handles.
unfoldable pub init_gates : ℕ → ℕ → Idt → Outcome Idt
unfolding register_isr
init_gates int3 invalid_opcode idt = do
  idt' ← register_isr 0x3 int3 0 0x8e idt
  register_isr 0x6 invalid_opcode 0 0x8e idt'
