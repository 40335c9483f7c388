-- ===== src/Arch/Interrupts/Stubs/Restores.antt =====
-- The stubs hand the saved registers to the handler, and give them back when it returns.
use griffin.Common.{ℕ, ◌+◌, ◌*◌, ◌^◌, ◌≤◌, ◌<◌, ◌≡◌, refl, ap, sym, ◌∙◌, arith, dec_lt, ◌==◌, false}
use griffin.Arch.Interrupts.Stubs.{
  Frame, Instruction, rsi, rdi, r15, execute, run, isr_entry, isr_exit, isr_err_entry, isr_err_exit,
  isr, isr_err, up, down,
}
use griffin.Arch.Interrupts.Stubs.Moves.{pushes, pops, IsSaved, run-pushes, run-pops}

-- What the calling convention asks of a handler: it leaves the stack pointer and the stack from there
-- on as they were. Registers may change.
pub record IsHandler (inner : Frame → Frame) : Type 0 where
  pub rsp : (s : Frame) → (inner s).rsp ≡ s.rsp
  pub stack : (s : Frame) (a : ℕ) → s.rsp ≤ a → (inner s).stack a ≡ s.stack a

-- The registers and the stack from `top` on are as they were, and `top` is the stack pointer.
pub record IsRestored (top : ℕ) (s s' : Frame) : Type 0 where
  pub rsp : s'.rsp ≡ top
  pub regs : (r : ℕ) → r < 15 → s'.regs r ≡ s.regs r
  pub stack : (a : ℕ) → top ≤ a → s'.stack a ≡ s.stack a

-- The handler's first argument points to the saved registers in the order of `InterruptContext`, below
-- the words that the processor pushed.
pub record IsContext (s s' : Frame) : Type 0 where
  pub argument : s'.regs rdi ≡ s'.rsp
  pub fields : (i : ℕ) → i < 15 → s'.stack (s'.regs rdi + 8 * i) ≡ s.regs i
  pub below : s'.regs rdi + 8 * 15 ≡ s.rsp
  pub above : (a : ℕ) → s.rsp ≤ a → s'.stack a ≡ s.stack a

pub isr_entry-IsContext :
    (s : Frame) → 8 * 15 ≤ s.rsp → s.rsp < 2 ^ 64 → IsContext s (run isr_entry s)
unfolding isr_entry run execute
isr_entry-IsContext s room small =
    let saved = run-pushes 15 s room small in
    record { argument = refl; fields = saved.saved; below = saved.moved; above = saved.above }

-- Where the saved registers stand at the stack pointer, below `top`, the pops restore them.
popped-IsRestored :
    (top : ℕ) (s u : Frame)
    → top < 2 ^ 64
    → u.rsp + 8 * 15 ≡ top
    → ((i : ℕ) → i < 15 → u.stack (u.rsp + 8 * i) ≡ s.regs i)
    → ((a : ℕ) → top ≤ a → u.stack a ≡ s.stack a)
    → IsRestored top s (run (pops 0 15) u)
popped-IsRestored top s u small at fields above =
    let loaded = run-pops 15 0 u (omega arith) in
    record {
      rsp = loaded.moved ∙ at;
      regs = λ r h.
          (let z : 0 + r ≡ r = omega arith in
            ap (run (pops 0 15) u).regs (sym z) ∙ loaded.loaded r h ∙ fields r h);
      stack = λ a h. ap (λ (f : ℕ → ℕ). f a) loaded.stack ∙ above a h;
    }

-- For every handler that keeps the calling convention and every stack with room for 15 words, `isr!`
-- calls it with a pointer to the registers in the order of `InterruptContext`, and at `iretq` every
-- register, the stack pointer and the stack above it are as they were.
pub isr-IsRestored :
    (inner : Frame → Frame)
    → IsHandler inner
    → (s : Frame) → 8 * 15 ≤ s.rsp
    → s.rsp < 2 ^ 64
    → IsContext s (run isr_entry s) × IsRestored s.rsp s (isr inner s)
unfolding isr isr_exit
isr-IsRestored inner ok s room small =
    let context = isr_entry-IsContext s room small in
    let s' = run isr_entry s in
    (
      context,
      popped-IsRestored s.rsp s (inner s') small
          (omega (arith, ok.rsp s', context.argument, context.below))
          (λ i h.
            ok.stack s' ((inner s').rsp + 8 * i) (omega (arith, ok.rsp s'))
            ∙ ap (λ (p : ℕ). s'.stack (p + 8 * i)) (ok.rsp s' ∙ sym context.argument)
            ∙ context.fields i h)
          (λ a h.
            ok.stack s' a (omega (arith, context.argument, context.below)) ∙ context.above a h),
    )

-- What `isr_err!` passes: the first argument points to the error code, with the saved registers behind
-- it, and the second is what the interrupted code had in `rsi`.
pub record IsErrorContext (s s' : Frame) : Type 0 where
  pub argument : s'.regs rdi ≡ s'.rsp
  pub error : s'.stack (s'.regs rdi) ≡ s.stack s.rsp
  pub second : s'.regs rsi ≡ s.regs rsi
  pub fields : (i : ℕ) → i < 15 → s'.stack (s'.regs rdi + 8 + 8 * i) ≡ s.regs i
  pub below : s'.regs rdi + 8 * 15 ≡ s.rsp
  pub above : (a : ℕ) → s.rsp + 8 ≤ a → s'.stack a ≡ s.stack a

abbrev swapped : Frame → Frame
swapped s = execute (Instruction.xchg_top r15) s

-- The last pushes, from the frame `u` in which the registers below `r15` are saved.
coded-IsErrorContext :
    (s u : Frame)
    → 8 * 15 ≤ s.rsp
    → s.rsp < 2 ^ 64
    → IsSaved 14 (swapped s) u
    → IsErrorContext s (execute Instruction.mov_rdi_rsp (execute (Instruction.push r15) u))
unfolding execute
coded-IsErrorContext s u room small saved =
    let lower : down u.rsp + 8 ≡ u.rsp = omega (arith, saved.moved) in
    let top : (swapped s).stack s.rsp ≡ s.regs r15 = ground arith in
    record {
      argument = refl;
      error = ground arith;
      second = ap (λ (f : ℕ → ℕ). f rsi) saved.regs;
      fields = λ i h.
          (let same : down u.rsp + 8 + 8 * i ≡ u.rsp + 8 * i = omega (arith, lower) in
            let other : (down u.rsp == u.rsp + 8 * i) ≡ false = ground (arith, lower) in
            rw (same, other)
              (elim (dec_lt i 14) [
                | yes low ↦ saved.saved i low ∙ ground (arith, low)
                | no last ↦
                    let e : i ≡ 14 = omega arith in
                    let here : u.rsp + 8 * i ≡ s.rsp = omega (arith, saved.moved) in
                    rw here (saved.above s.rsp (omega arith) ∙ top ∙ ap s.regs (sym e))
              ]));
      below = omega (arith, saved.moved, lower);
      above = λ a h.
          (let other : (down u.rsp == a) ≡ false = ground (arith, lower, saved.moved) in
            rw other (saved.above a (omega arith) ∙ ground arith));
    }

isr_err_entry-IsErrorContext :
    (s : Frame) → 8 * 15 ≤ s.rsp → s.rsp < 2 ^ 64 → IsErrorContext s (run isr_err_entry s)
unfolding isr_err_entry run execute
isr_err_entry-IsErrorContext s room small =
    coded-IsErrorContext s (run (pushes 14) (swapped s)) room small
      (run-pushes 14 (swapped s) (omega arith) small)

-- For every handler that keeps the calling convention and every stack with room for 15 words below the
-- error code, `isr_err!` calls it with a pointer to the error code and the interrupted code's own `rsi`
-- as the second argument, and at `iretq` every register and the stack above the error code are as they
-- were, and the error code is off the stack.
pub isr_err-IsRestored :
    (inner : Frame → Frame)
    → IsHandler inner
    → (s : Frame) → 8 * 15 ≤ s.rsp
    → s.rsp + 8 < 2 ^ 64
    → IsErrorContext s (run isr_err_entry s) × IsRestored (s.rsp + 8) s (isr_err inner s)
unfolding isr_err isr_err_exit run execute
isr_err-IsRestored inner ok s room small = (context, restored (run isr_err_entry s) context)
  where
    context : IsErrorContext s (run isr_err_entry s)
    context = isr_err_entry-IsErrorContext s room (omega arith)

    restored :
        (s' : Frame)
        → IsErrorContext s s'
        → IsRestored (s.rsp + 8) s (run (pops 0 15) (execute (Instruction.add_rsp 8) (inner s')))
    restored s' c =
        let same = ok.rsp s' in
        let higher : up 8 (inner s').rsp ≡ s'.regs rdi + 8 =
          omega (arith, same, c.argument, c.below) in
        popped-IsRestored (s.rsp + 8) s (execute (Instruction.add_rsp 8) (inner s')) small
          (omega (arith, higher, c.below))
          (λ i h.
            ok.stack s' (up 8 (inner s').rsp + 8 * i) (omega (arith, higher, c.argument))
            ∙ ap (λ (p : ℕ). s'.stack (p + 8 * i)) higher
            ∙ c.fields i h)
          (λ a h. ok.stack s' a (omega (arith, c.argument, c.below)) ∙ c.above a h)
