-- ===== src/Drivers/Hpet.antt =====
-- drivers/hpet.rs: the timer. Its registers are read through `Hpet`; that the loop of `sleep` does not
-- end is a panic here.
pub mod Sleep
pub mod Setup
use griffin.Common.{
  ℕ, zero, suc, ◌+◌, ◌*◌, ◌/◌, ◌^◌, Outcome, done, panic, ◌>>=◌, u32, ◌>>>◌, ltb, if◌then◌else◌,
  add_checked, mul_checked, div_checked,
}

abbrev pub ms_in_femtoseconds : ℕ
ms_in_femtoseconds = 1000000000000

pub record Hpet (World : Type 0) : Type 0 where
  pub general_capabilities : World → ℕ
  pub main_counter_value : World → ℕ × World

module _ {World : Type 0} (hpet : Hpet World) where
  open hpet use {general_capabilities, main_counter_value}

  -- The loop of `sleep`, with `rounds` reads at most.
  unfoldable pub sleep_loop : ℕ → ℕ → World → Outcome World
  sleep_loop target zero w = panic
  sleep_loop target (suc rounds) w =
      let (now, w') = main_counter_value w in
      let rest = sleep_loop target rounds w' in if ltb now target then rest else done w'

  -- The ticks in a number of milliseconds.
  unfoldable pub ticks : ℕ → World → Outcome ℕ
  ticks ms w = do
    femtoseconds ← mul_checked ms ms_in_femtoseconds
    div_checked femtoseconds (u32 (general_capabilities w >>> 32))

  unfoldable pub sleep : ℕ → ℕ → World → Outcome World
  sleep ms rounds w =
      let (now, w') = main_counter_value w in
      ticks ms w >>= λ n. add_checked now n >>= λ target. sleep_loop target rounds w'
