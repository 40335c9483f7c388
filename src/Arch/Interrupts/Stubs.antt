-- ===== src/Arch/Interrupts/Stubs.antt =====
-- arch/x86_64/interrupts.rs: the assembly of the macros `isr!` and `isr_err!`, up to `iretq`, as lists
-- of instructions on registers and a stack. What the called handler does is a parameter.
pub mod Moves
pub mod Restores
use griffin.Common.{ℕ, zero, suc, ◌+◌, ◌-◌, ◌*◌, ◌%◌, ◌^◌, List, [], ◌∷◌, ◌==◌, if◌then◌else◌}

-- The 15 registers that are saved, by their place in `InterruptContext`, and the stack as words of 8
-- bytes by their address.
pub record Frame : Type 0 where
  pub regs : ℕ → ℕ
  pub rsp : ℕ
  pub stack : ℕ → ℕ

abbrev pub rax : ℕ
rax = 0

abbrev pub rbx : ℕ
rbx = 1

abbrev pub rcx : ℕ
rcx = 2

abbrev pub rdx : ℕ
rdx = 3

abbrev pub rsi : ℕ
rsi = 4

abbrev pub rdi : ℕ
rdi = 5

abbrev pub rbp : ℕ
rbp = 6

abbrev pub r8 : ℕ
r8 = 7

abbrev pub r9 : ℕ
r9 = 8

abbrev pub r10 : ℕ
r10 = 9

abbrev pub r11 : ℕ
r11 = 10

abbrev pub r12 : ℕ
r12 = 11

abbrev pub r13 : ℕ
r13 = 12

abbrev pub r14 : ℕ
r14 = 13

abbrev pub r15 : ℕ
r15 = 14

pub data Instruction : Type 0 where
  push : ℕ → Instruction
  pop : ℕ → Instruction
  -- `xchg [rsp], r`
  xchg_top : ℕ → Instruction
  -- `add rsp, n`
  add_rsp : ℕ → Instruction
  -- `mov rdi, rsp`
  mov_rdi_rsp : Instruction
  -- The direction flag is not part of the state.
  cld : Instruction

abbrev pub write_at : ℕ → ℕ → (ℕ → ℕ) → ℕ → ℕ
write_at a v f x = if a == x then v else f x

abbrev pub up : ℕ → ℕ → ℕ
up n a = (a + n) % 2 ^ 64

abbrev pub down : ℕ → ℕ
down a = (a + (2 ^ 64 - 8)) % 2 ^ 64

unfoldable pub execute : Instruction → Frame → Frame
execute (Instruction.push r) s = record s {
  rsp = down s.rsp;
  stack = write_at (down s.rsp) (s.regs r) s.stack;
}
execute (Instruction.pop r) s = record s {
  rsp = up 8 s.rsp;
  regs = write_at r (s.stack s.rsp) s.regs;
}
execute (Instruction.xchg_top r) s = record s {
  regs = write_at r (s.stack s.rsp) s.regs;
  stack = write_at s.rsp (s.regs r) s.stack;
}
execute (Instruction.add_rsp n) s = record s { rsp = up n s.rsp }
execute Instruction.mov_rdi_rsp s = record s { regs = write_at rdi s.rsp s.regs }
execute Instruction.cld s = s

unfoldable pub run : List Instruction → Frame → Frame
run [] s = s
run (i ∷ is) s = run is (execute i s)

abbrev pub pop_all : List Instruction
pop_all =
    pop rax
    ∷ pop rbx
    ∷ pop rcx
    ∷ pop rdx
    ∷ pop rsi
    ∷ pop rdi
    ∷ pop rbp
    ∷ pop r8
    ∷ pop r9
    ∷ pop r10
    ∷ pop r11
    ∷ pop r12
    ∷ pop r13
    ∷ pop r14
    ∷ pop r15
    ∷ []

-- `isr!` up to its call.
unfoldable pub isr_entry : List Instruction
isr_entry =
    push r15
    ∷ push r14
    ∷ push r13
    ∷ push r12
    ∷ push r11
    ∷ push r10
    ∷ push r9
    ∷ push r8
    ∷ push rbp
    ∷ push rdi
    ∷ push rsi
    ∷ push rdx
    ∷ push rcx
    ∷ push rbx
    ∷ push rax
    ∷ cld
    ∷ mov_rdi_rsp
    ∷ []

-- `isr!` after its call, up to `iretq`.
unfoldable pub isr_exit : List Instruction
isr_exit = pop_all

-- `isr_err!` up to its call.
unfoldable pub isr_err_entry : List Instruction
isr_err_entry =
    xchg_top r15
    ∷ push r14
    ∷ push r13
    ∷ push r12
    ∷ push r11
    ∷ push r10
    ∷ push r9
    ∷ push r8
    ∷ push rbp
    ∷ push rdi
    ∷ push rsi
    ∷ push rdx
    ∷ push rcx
    ∷ push rbx
    ∷ push rax
    ∷ push r15
    ∷ cld
    ∷ mov_rdi_rsp
    ∷ []

unfoldable pub isr_err_exit : List Instruction
isr_err_exit = add_rsp 8 ∷ pop_all

-- The stubs with the call of the handler, `inner`.
unfoldable pub isr : (Frame → Frame) → Frame → Frame
isr inner s = run isr_exit (inner (run isr_entry s))

unfoldable pub isr_err : (Frame → Frame) → Frame → Frame
isr_err inner s = run isr_err_exit (inner (run isr_err_entry s))
