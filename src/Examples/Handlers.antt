-- ===== src/Examples/Handlers.antt =====
-- Interrupt stubs around a handler that leaves no register as it was.
use griffin.Common.{◌+◌, ◌*◌, refl, arith}
use griffin.Arch.Interrupts.Stubs.{Frame, run, isr_entry, isr_err_entry, isr, isr_err}
use griffin.Arch.Interrupts.Stubs.Restores.{
  IsHandler, IsContext, IsErrorContext, IsRestored, isr-IsRestored, isr_err-IsRestored,
}

abbrev careless : Frame → Frame
careless s = record s { regs = λ r. 0xdead }

careless-IsHandler : IsHandler careless
careless-IsHandler = record { rsp = λ s. refl; stack = λ s a h. refl }

abbrev interrupted : Frame
interrupted = record { regs = λ r. r * 3 + 1; rsp = 0x9000; stack = λ a. a + 5 }

isr-IsRestored_example :
    IsContext interrupted (run isr_entry interrupted)
    × IsRestored 0x9000 interrupted (isr careless interrupted)
isr-IsRestored_example =
    isr-IsRestored careless careless-IsHandler interrupted (omega arith) (omega arith)

isr_err-IsRestored_example :
    IsErrorContext interrupted (run isr_err_entry interrupted)
    × IsRestored 0x9008 interrupted (isr_err careless interrupted)
isr_err-IsRestored_example =
    isr_err-IsRestored careless careless-IsHandler interrupted (omega arith) (omega arith)
