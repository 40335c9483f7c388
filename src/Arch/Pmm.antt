-- ===== src/Arch/Pmm.antt =====
-- arch/x86_64/mm/pmm.rs, `Pmm`: the page allocator. A set bit of its bitmap is a free page. Its lock
-- is not modelled: every operation here runs to its end while it holds the lock.
pub mod Runs
pub mod Alloc
pub mod Free
pub mod Edges
pub mod Buffers
pub mod Init
use griffin.Common.{
  ℕ, zero, suc, ◌+◌, ◌-◌, ◌*◌, ◌/◌, Bool, ◌&&◌, Option, none, some, Outcome, done, panic, ◌>>=◌,
  ltb, leb, ◌==◌, if◌then◌else◌, sub_checked, mul_checked,
}
use griffin.Utils.Bitmap.{Bitmap, set, clear, is_set}
use griffin.Arch.PhysAddr.{page_size, lower_half}

abbrev pub Pmm : Type 0
Pmm = Bitmap

-- `for p in page..page + left { bitmap.op(p) }`
unfoldable pub for_bits : (Bitmap → ℕ → Outcome Bitmap) → ℕ → ℕ → Bitmap → Outcome Bitmap
for_bits op page zero b = done b
for_bits op page (suc left) b = op b page >>= for_bits op (page + 1) left

-- The run of `pages` set bits that ends at `i` is taken. `i - pages + 1` is computed from the left.
unfoldable pub claim : ℕ → ℕ → Pmm → Outcome (Option ℕ × Pmm)
unfolding for_bits
claim pages i b = do
  before ← sub_checked i pages
  let page = before + 1
  b' ← for_bits clear page pages b
  addr ← mul_checked page page_size
  done (some addr, b')

-- The search of `alloc` at bit `i`, behind `count` set bits, with `left` rounds to go.
unfoldable pub alloc_loop : ℕ → ℕ → ℕ → ℕ → Pmm → Outcome (Option ℕ × Pmm)
unfolding is_set claim
alloc_loop pages i zero count b = done (none, b)
alloc_loop pages i (suc left) count b = is_set b i >>= λ s.
    let next = if s then count + 1 else 0 in
    let rest = alloc_loop pages (i + 1) left next b in
    if s && (next == pages) then claim pages i b else rest

unfoldable pub alloc : ℕ → Pmm → Outcome (Option ℕ × Pmm)
unfolding alloc_loop
alloc pages b = do bits ← mul_checked b.size 8; alloc_loop pages 0 bits 0 b

unfoldable pub free : ℕ → ℕ → Pmm → Outcome Pmm
unfolding for_bits
free ptr pages_amnt b = for_bits set (lower_half ptr / page_size) pages_amnt b

-- The allocator together with the memory that it hands out, as words of 8 bytes by their physical
-- address.
pub record Machine : Type 0 where
  pub pmm : Pmm
  pub memory : ℕ → ℕ

abbrev pub zero_pages : ℕ → ℕ → (ℕ → ℕ) → ℕ → ℕ
zero_pages start pages memory a =
    if leb start a && ltb a (start + pages * page_size) then 0 else memory a

abbrev pub calloc_result : ℕ → (ℕ → ℕ) → Option ℕ × Pmm → Option ℕ × Machine
calloc_result pages memory (none, b) = (none, record { pmm = b; memory = memory })
calloc_result pages memory (some mem, b) =
    (some mem, record { pmm = b; memory = zero_pages mem pages memory })

unfoldable pub calloc : ℕ → Machine → Outcome (Option ℕ × Machine)
unfolding alloc
calloc pages m = do r ← alloc pages m.pmm; done (calloc_result pages m.memory r)
