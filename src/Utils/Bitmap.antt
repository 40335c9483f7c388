-- ===== src/Utils/Bitmap.antt =====
-- utils/bitmap.rs. `data_ptr` is the address of the slice, `bytes` its content. An index out of the
-- slice panics. `Bitmap::new` and `drop`, which use the page allocator, are in Pmm/Buffers.
pub mod Laws
pub mod Scan
use griffin.Common.{
  ℕ, zero, suc, ◌+◌, ◌-◌, ◌*◌, ◌/◌, ◌%◌, ◌^◌, bit_and, bit_or, bit_xor, Bool, true, false, not,
  Option, none, some, List, length, get_elem?, set as set_elem, Outcome, done, panic, ◌>>=◌, ◌==◌,
  if◌then◌else◌, ◌<<<◌,
}

pub record Bitmap : Type 0 where
  pub data_ptr : ℕ
  pub bytes : List ℕ
  pub size : ℕ

-- The slice that `from_raw_ptr` makes has the bytes that lie at `ptr`.
unfoldable pub from_raw_ptr : ℕ → List ℕ → Bitmap
from_raw_ptr ptr content = record { data_ptr = ptr; bytes = content; size = length content }

-- `self.0[bit / 8] op= …`
unfoldable pub modify : Bitmap → ℕ → (ℕ → ℕ) → Outcome Bitmap
modify b bit op = elim (get_elem? b.bytes (bit / 8)) [
  | none ↦ panic
  | some x ↦ done (record b { bytes = set_elem b.bytes (bit / 8) (op x) })
]

unfoldable pub set : Bitmap → ℕ → Outcome Bitmap
unfolding modify
set b bit = modify b bit (λ x. bit_or x (1 <<< (bit % 8)))

unfoldable pub toggle : Bitmap → ℕ → Outcome Bitmap
unfolding modify
toggle b bit = modify b bit (λ x. bit_xor x (1 <<< (bit % 8)))

-- `!` of a byte is its distance to 255.
unfoldable pub clear : Bitmap → ℕ → Outcome Bitmap
unfolding modify
clear b bit = modify b bit (λ x. bit_and x (255 - 1 <<< (bit % 8)))

unfoldable pub is_set : Bitmap → ℕ → Outcome Bool
is_set b bit = elim (get_elem? b.bytes (bit / 8)) [
  | none ↦ panic
  | some x ↦ done (not (bit_and x (1 <<< (bit % 8)) == 0))
]

-- The loop `for i in start..start + left { if !is_set(i) { … return } }` up to its body: the first
-- index whose bit is clear, if there is one.
unfoldable pub find_clear : Bitmap → ℕ → ℕ → Outcome (Option ℕ)
unfolding is_set
find_clear b start zero = done none
find_clear b start (suc left) =
    let rest = find_clear b (start + 1) left in
    is_set b start >>= λ s. if s then rest else done (some start)
