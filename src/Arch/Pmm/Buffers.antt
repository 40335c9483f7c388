-- ===== src/Arch/Pmm/Buffers.antt =====
-- Memory that is taken with `calloc` and given back on drop: `PmmBox` of arch/x86_64/mm/pmm.rs, and
-- `Bitmap::new` and `Bitmap::drop` of utils/bitmap.rs.
use griffin.Common.{
  ℕ, ◌+◌, ◌*◌, ◌/◌, ◌^◌, ◌≤◌, ◌<◌, ◌≡◌, refl, false, ◌&&◌, leb, ltb, Bool-cases, inl, inr, Option,
  none, some, arith, Outcome, done, panic, ◌>>=◌, expect, replicate,
}
use griffin.Utils.Math.{div_ceil}
use griffin.Utils.Math.Laws.{ceil, div_ceil-done, ceil_bounds}
use griffin.Utils.Bitmap.{Bitmap}
use griffin.Utils.Bitmap.Laws.{bit_of}
use griffin.Arch.PhysAddr.{page_size, higher_half, lower_half}
use griffin.Arch.Pmm.{Pmm, Machine, free, calloc, calloc_result, zero_pages}
use griffin.Arch.Pmm.Alloc.{IsPmm, IsClaim, IsAlloc, alloc-IsAlloc}
use griffin.Arch.Pmm.Free.{free_claim}

pub record PmmBox : Type 0 where
  pub box_ptr : ℕ
  pub page_cnt : ℕ

abbrev box_of : ℕ → Option ℕ × Machine → Outcome (PmmBox × Machine)
box_of alloc_size (none, m) = panic
box_of alloc_size (some mem, m) =
    done (record { box_ptr = higher_half mem; page_cnt = alloc_size }, m)

unfoldable pub pmm_box : ℕ → Machine → Outcome (PmmBox × Machine)
pmm_box size m = do
  alloc_size ← div_ceil size page_size
  r ← calloc alloc_size m
  box_of alloc_size r

unfoldable pub drop_box : PmmBox → Machine → Outcome Machine
drop_box b m = do pmm ← free b.box_ptr b.page_cnt m.pmm; done (record m { pmm = pmm })

-- The pages are zeroed, so every byte of the new slice is 0.
unfoldable pub new_bitmap : ℕ → Machine → Outcome (Bitmap × Machine)
new_bitmap size m = do
  pages ← div_ceil size page_size
  (r, m') ← calloc pages m
  mem ← expect r
  done (record { data_ptr = higher_half mem; bytes = replicate size 0; size = size }, m')

unfoldable pub drop_bitmap : Bitmap → Machine → Outcome Machine
drop_bitmap b m = do
  pages ← div_ceil b.size page_size
  pmm ← free b.data_ptr pages m.pmm
  done (record m { pmm = pmm })

-- The outcomes of `calloc`: nothing changes, or a run is taken and its memory is zero.
pub data IsCalloc (m : Machine) (pages : ℕ) : Outcome (Option ℕ × Machine) → Type 0 where
  exhausted : IsCalloc m pages (done (none, m))
  found :
      (page : ℕ) (b' : Pmm)
      → IsClaim m.pmm pages page b'
      → IsCalloc m pages (
          done (
            some (page * page_size),
            record { pmm = b'; memory = zero_pages (page * page_size) pages m.memory },
          ))

-- For one page or more, `calloc` takes a run of free pages and fills it with zeros, or returns
-- nothing and changes nothing.
pub calloc-IsCalloc :
    (m : Machine) (pages : ℕ) → IsPmm m.pmm → 0 < pages → IsCalloc m pages (calloc pages m)
unfolding calloc
calloc-IsCalloc m pages ok pos = go (alloc-IsAlloc ok pages pos)
  where
    go :
        {r : Outcome (Option ℕ × Pmm)}
        → IsAlloc m.pmm pages r
        → IsCalloc m pages (r >>= λ p. done (calloc_result pages m.memory p))
    go (IsAlloc.exhausted no_run) = IsCalloc.exhausted
    go (IsAlloc.found page b' c) = IsCalloc.found page b' c

drop_claim :
    (m m' : Machine) (box : PmmBox) (memory : ℕ → ℕ) {pages page : ℕ} {b' : Pmm}
    → 0 < pages
    → IsPmm m.pmm
    → IsClaim m.pmm pages page b'
    → ◌≡◌ {A = PmmBox × Machine}
        (
          record { box_ptr = higher_half (page * page_size); page_cnt = pages },
          record { pmm = b'; memory = memory },
        )
        (box, m')
    → (m'' : Machine) × (drop_box box m' ≡ done m'') × ((j : ℕ) → bit_of m''.pmm j ≡ bit_of m.pmm j)
unfolding drop_box
drop_claim m m' box memory pos ok c e =
    let (b'', freed, bits) = free_claim ok c pos in
    (record m' { pmm = b'' }, ground (arith, freed), bits)

-- The pages that hold the bitmap's own bytes are in use.
abbrev pub KeepsOwn : Pmm → Type 0
KeepsOwn b =
    (a : ℕ)
    → lower_half b.data_ptr ≤ a
    → a < lower_half b.data_ptr + b.size
    → bit_of b (a / page_size) ≡ false

-- What is zeroed are pages that were free.
zeroed-free :
    {b b' : Pmm} {pages page : ℕ} (memory : ℕ → ℕ) (a : ℕ)
    → IsClaim b pages page b'
    → bit_of b (a / page_size) ≡ false
    → zero_pages (page * page_size) pages memory a ≡ memory a
zeroed-free {pages = pages} {page = page} memory a c used =
    elim (Bool-cases (leb (page * page_size) a && ltb a (page * page_size + pages * page_size))) [
      | inr out ↦ rw out refl
      | inl inside ↦
          let free_page = c.run (a / page_size) (ground (arith, inside)) (ground (arith, inside)) in
          cc (free_page, used)
    ]

-- On a well-formed bitmap whose pages all lie below 2^47, whose first page is in use and whose own
-- bytes lie in pages that are in use, a box of at least one byte and less than 2^63 that was made has
-- left the bytes of the bitmap alone, and is given back whole: every bit of the bitmap is as it was.
pub drop_box-pmm_box :
    (size : ℕ) (m m' : Machine) (box : PmmBox)
    → IsPmm m.pmm
    → KeepsOwn m.pmm
    → 0 < size
    → size < 2 ^ 63
    → pmm_box size m ≡ done (box, m')
    → ((a : ℕ)
        → lower_half m.pmm.data_ptr ≤ a
        → a < lower_half m.pmm.data_ptr + m.pmm.size
        → m'.memory a ≡ m.memory a)
      × (m'' : Machine) × (drop_box box m' ≡ done m'')
      × ((j : ℕ) → bit_of m''.pmm j ≡ bit_of m.pmm j)
unfolding pmm_box
drop_box-pmm_box size m m' box ok own pos small e =
    let pages_pos : 0 < ceil size page_size =
      omega (arith, ceil_bounds size page_size (omega arith)) in
    go pages_pos (calloc-IsCalloc m (ceil size page_size) ok pages_pos)
      (rw (div_ceil-done size page_size (omega arith) (omega arith)) at e)
  where
    go :
        0 < ceil size page_size
        → {r : Outcome (Option ℕ × Machine)} → IsCalloc m (ceil size page_size) r
        → (r >>= box_of (ceil size page_size)) ≡ done (box, m')
        → ((a : ℕ)
            → lower_half m.pmm.data_ptr ≤ a
            → a < lower_half m.pmm.data_ptr + m.pmm.size
            → m'.memory a ≡ m.memory a)
          × (m'' : Machine) × (drop_box box m' ≡ done m'')
          × ((j : ℕ) → bit_of m''.pmm j ≡ bit_of m.pmm j)
    go pages_pos IsCalloc.exhausted eq = cc
    go pages_pos (IsCalloc.found page b' c) eq =
        let zeroed = zero_pages (page * page_size) (ceil size page_size) m.memory in
        let made : zeroed ≡ m'.memory = cc in
        let (m'', dropped, bits) = drop_claim m m' box zeroed pages_pos ok c (cc) in
        (λ a lo hi. rw (← made) (zeroed-free m.memory a c (own a lo hi)), m'', dropped, bits)
