-- ===== src/Mm/Flags.antt =====
-- The bit sets of mm/vmm.rs. The type that the `bitflags` crate generates is a number here, and the
-- crate's operations are a parameter: `Bitflags` states what its documentation says of them.
pub mod PageFlags
pub mod MapProt
pub mod MapFlags
pub mod Prot
use griffin.Common.{ℕ, bit_and, bit_or, ◌≡◌, ◌↔◌, Bool, true}
use griffin.Arch.PhysAddr.{not64}

pub record Bitflags : Type 0 where
  -- `a.contains(b)`: all flags of `b` are in `a`
  pub contains : ℕ → ℕ → Bool
  -- `a | b` and `a |= b`
  pub union : ℕ → ℕ → ℕ
  -- `a.remove(b)`
  pub remove : ℕ → ℕ → ℕ
  pub contains_iff : (a b : ℕ) → (contains a b ≡ true) ↔ (bit_and a b ≡ b)
  pub union_lem : (a b : ℕ) → union a b ≡ bit_or a b
  pub remove_lem : (a b : ℕ) → remove a b ≡ bit_and a (not64 b)
