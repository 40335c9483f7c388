-- ===== src/Drivers/Hpet/Sleep.antt =====
-- `sleep` ends, and not too early.
use griffin.Common.{
  ℕ, zero, suc, ◌+◌, ◌-◌, ◌*◌, ◌⊎◌, ◌/◌, ◌^◌, ◌≤◌, ◌<◌, ◌≡◌, refl, true, false, Bool-cases, inl,
  inr, Outcome, done, ltb, ◌==◌, u32, ◌>>>◌, arith,
}
use native.Mathlib.Nat.{add-mul, mul-le-mul_right}
use griffin.Drivers.Hpet.{Hpet, ms_in_femtoseconds, sleep_loop, ticks, sleep}

-- The counter is a 64-bit register that may give the same value on `delay` further reads, and wraps
-- only behind `limit`: below it, a read is followed by a higher one, or by the same one with fewer
-- such repetitions left.
pub record IsCounter {World : Type 0} (hpet : Hpet World) (limit delay : ℕ) : Type 0 where
  pub repeats : World → ℕ
  pub word : (w : World) → (hpet.main_counter_value w).0 < 2 ^ 64
  pub bounded : (w : World) → repeats w ≤ delay
  pub counts :
      (w : World)
      → (hpet.main_counter_value w).0 < limit
      → ((hpet.main_counter_value w).0 < (hpet.main_counter_value (hpet.main_counter_value w).1).0)
        ⊎ (((hpet.main_counter_value (hpet.main_counter_value w).1).0
              ≡ (hpet.main_counter_value w).0)
            × (repeats (hpet.main_counter_value w).1 < repeats w))

-- The outcome is the state after a read that found the counter at the target or above.
pub record Reaches {World : Type 0} (hpet : Hpet World) (target : ℕ) (result : Outcome World)
    : Type 0 where
  pub before : World
  pub late : target ≤ (hpet.main_counter_value before).0
  pub ends : result ≡ done (hpet.main_counter_value before).1

-- The reads that are enough from a value on, with `repeats` of them that may still find it unchanged.
abbrev needed : ℕ → ℕ → ℕ → ℕ → ℕ
needed delay target value repeats = (target - value) * (delay + 1) + repeats

needed-rise :
    (delay target value value' repeats repeats' : ℕ)
    → value < target
    → value < value'
    → repeats' ≤ delay
    → needed delay target value' repeats' < needed delay target value repeats
needed-rise delay target value value' repeats repeats' early rise few =
    let fewer : (target - value' + 1) * (delay + 1) ≤ (target - value) * (delay + 1) =
      mul-le-mul_right (delay + 1) (omega arith) in
    omega (arith, fewer, add-mul (target - value') 1 (delay + 1))

module _ {World : Type 0} {hpet : Hpet World} {limit delay : ℕ}
    (law : IsCounter hpet limit delay) where
  sleep_loop-Reaches :
      (target : ℕ)
      → target < limit
      → (rounds : ℕ) (w : World)
      → needed delay target (hpet.main_counter_value w).0 (law.repeats w) < rounds
      → Reaches hpet target (sleep_loop hpet target rounds w)
  unfolding sleep_loop
  sleep_loop-Reaches target in_time zero w enough = absurd (omega arith)
  sleep_loop-Reaches target in_time (suc rounds) w enough =
      elim (Bool-cases (ltb (hpet.main_counter_value w).0 target)) [
        | inr reached ↦
            rw reached (record { before = w; late = ground (arith, reached); ends = refl })
        | inl early ↦
            let below : (hpet.main_counter_value w).0 < target = ground (arith, early) in
            let fewer : needed delay target
                  (hpet.main_counter_value (hpet.main_counter_value w).1).0
                  (law.repeats (hpet.main_counter_value w).1)
                < rounds =
              elim (law.counts w (omega arith)) [
                | inl rise ↦ omega (
                  arith,
                  needed-rise delay target (hpet.main_counter_value w).0
                      (hpet.main_counter_value (hpet.main_counter_value w).1).0 (law.repeats w)
                      (law.repeats (hpet.main_counter_value w).1) below rise
                      (law.bounded (hpet.main_counter_value w).1),
                )
                | inr (same, less) ↦ rw same (omega arith)
              ] in
            rw early (sleep_loop-Reaches target in_time rounds (hpet.main_counter_value w).1 fewer)
      ]

  -- On a 64-bit counter that may repeat a value on up to `delay` further reads and wraps only behind
  -- `limit`, `sleep` ends, with more rounds of fuel than `delay + 1` for each tick of the time, and
  -- `delay` more, and not before a read has found the counter above its first value by the ticks of
  -- the time, for a period that is not zero, a time that fits 64 bits and a target below `limit` and
  -- 2^64.
  pub sleep-Reaches :
      (ms rounds : ℕ) (w : World)
      → 0 < u32 (hpet.general_capabilities w >>> 32)
      → ms * ms_in_femtoseconds < 2 ^ 64
      → (hpet.main_counter_value w).0
          + ms * ms_in_femtoseconds / u32 (hpet.general_capabilities w >>> 32)
        < 2 ^ 64
      → (hpet.main_counter_value w).0
          + ms * ms_in_femtoseconds / u32 (hpet.general_capabilities w >>> 32)
        < limit
      → ms * ms_in_femtoseconds / u32 (hpet.general_capabilities w >>> 32) * (delay + 1) + delay
        < rounds
      → Reaches hpet
          ((hpet.main_counter_value w).0
            + ms * ms_in_femtoseconds / u32 (hpet.general_capabilities w >>> 32))
          (sleep hpet ms rounds w)
  unfolding sleep ticks
  sleep-Reaches ms rounds w running fits_time fits in_time enough =
      let clock = u32 (hpet.general_capabilities w >>> 32) in
      let first = (hpet.main_counter_value w).0 in
      let time = ms * ms_in_femtoseconds / clock in
      let second = (hpet.main_counter_value (hpet.main_counter_value w).1).0 in
      let z : (clock == 0) ≡ false = ground arith in
      let p : ltb (ms * ms_in_femtoseconds) (2 ^ 64) ≡ true = ground arith in
      let q : ltb (first + time) (2 ^ 64) ≡ true = ground arith in
      let later : first ≤ second = elim (law.counts w (omega arith)) [
        | inl rise ↦ omega arith
        | inr (same, less) ↦ omega arith
      ] in
      let fewer : (first + time - second) * (delay + 1) ≤ time * (delay + 1) =
        mul-le-mul_right (delay + 1) (omega arith) in
      rw (p, z, q)
        (sleep_loop-Reaches (first + time) in_time rounds (hpet.main_counter_value w).1
          (omega (arith, fewer, law.bounded (hpet.main_counter_value w).1)))
