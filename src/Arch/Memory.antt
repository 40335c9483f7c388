-- ===== src/Arch/Memory.antt =====
-- Reads and writes of 8-byte words through pointers into the two maps of physical memory.
use griffin.Common.{ℕ, ◌+◌, ◌*◌, ◌^◌, ◌<◌, ◌≡◌, ap, arith, ◌==◌, if◌then◌else◌}
use griffin.Arch.PhysAddr.{higher_half, lower_half}
use griffin.Arch.PhysAddr.Laws.{higher_half_sum, lower_half_mod}
use griffin.Arch.Pmm.{Machine}

-- `*ptr`
unfoldable pub load : ℕ → Machine → ℕ
load ptr m = m.memory (lower_half ptr)

abbrev pub write_word : ℕ → ℕ → (ℕ → ℕ) → ℕ → ℕ
write_word a v memory x = if a == x then v else memory x

-- `*ptr = v`
unfoldable pub store : ℕ → ℕ → Machine → Machine
store ptr v m = record m { memory = write_word (lower_half ptr) v m.memory }

-- `ptr.offset(index)` of a `*mut u64`
abbrev pub offset : ℕ → ℕ → ℕ
offset ptr index = ptr + index * 8

module _ (table index : ℕ) (low : offset table index < 2 ^ 47) (m : Machine) where
  pub lower_half-slot : lower_half (offset table index) ≡ offset table index
  lower_half-slot = omega (arith, lower_half_mod (offset table index))

  pub lower_half-slot_high : lower_half (offset (higher_half table) index) ≡ offset table index
  lower_half-slot_high = omega (
    arith,
    higher_half_sum table (omega arith),
    lower_half_mod (offset (higher_half table) index),
  )

  pub load-slot : load (offset table index) m ≡ m.memory (offset table index)
  unfolding load
  load-slot = ap m.memory lower_half-slot

  pub load-slot_high : load (offset (higher_half table) index) m ≡ m.memory (offset table index)
  unfolding load
  load-slot_high = ap m.memory lower_half-slot_high

  pub store-slot :
      (v : ℕ)
      → store (offset table index) v m
        ≡ record m { memory = write_word (offset table index) v m.memory }
  unfolding store
  store-slot v = rw lower_half-slot

  pub store-slot_high :
      (v : ℕ)
      → store (offset (higher_half table) index) v m
        ≡ record m { memory = write_word (offset table index) v m.memory }
  unfolding store
  store-slot_high v = rw lower_half-slot_high

pub write_word_self : (a v : ℕ) (memory : ℕ → ℕ) → write_word a v memory a ≡ v
write_word_self a v memory = ground arith
