-- ===== src/Examples/Pages.antt =====
-- The page allocator.
use griffin.Common.{
  ◌/◌, ℕ, zero, suc, ◌+◌, ◌*◌, ◌≤◌, ◌<◌, ◌≡◌, refl, ◌⊎◌, true, none, some, List, [], ◌∷◌, get_or,
  arith, done, panic,
}
use griffin.Utils.Math.{div_ceil}
use griffin.Utils.Bitmap.{from_raw_ptr, set, clear}
use griffin.Utils.Bitmap.Laws.{IsValid, bit_of}
use griffin.Arch.PhysAddr.{page_size, phys_base, higher_half, lower_half}
use griffin.Arch.Pmm.{Pmm, Machine, alloc, free, calloc, zero_pages}
use griffin.Arch.Pmm.Alloc.{IsPmm, IsAlloc, alloc-IsAlloc}
use griffin.Arch.Pmm.Free.{free-alloc, alloc-alloc_disjoint}
use griffin.Arch.Pmm.Buffers.{PmmBox, KeepsOwn, pmm_box, drop_box, drop_box-pmm_box}
use griffin.Arch.Pmm.Init.{MemoryEntry, usable, kernel, other, find_biggest, reserve, mark, init}
use griffin.Arch.Pmm.Init.Places.{IsInit, init-IsInit}
use griffin.Arch.Pmm.Init.Overlap.{init-frees_bitmap_page}

-- Pages 2 to 7 and 9 to 11 of 16 are free.
abbrev sixteen : Pmm
sixteen = record { data_ptr = 0; bytes = 0xfc ∷ 0x0e ∷ []; size = 2 }

-- Page 0 is free too.
abbrev from_zero : Pmm
from_zero = record { data_ptr = 0; bytes = 0x07 ∷ 0x00 ∷ []; size = 2 }

all_bytes : (a b i : ℕ) → a < 256 → b < 256 → get_or (a ∷ b ∷ []) i 0 < 256
all_bytes a b zero ha hb = ha
all_bytes a b (suc zero) ha hb = hb
all_bytes a b (suc (suc i)) ha hb = omega arith

sixteen-IsValid : IsValid sixteen
sixteen-IsValid = record {
  same_size = refl;
  is_byte = λ i. all_bytes 0xfc 0x0e i (omega arith) (omega arith);
}

from_zero-IsValid : IsValid from_zero
from_zero-IsValid = record {
  same_size = refl;
  is_byte = λ i. all_bytes 7 0 i (omega arith) (omega arith);
}

sixteen-IsPmm : IsPmm sixteen
unfolding bit_of
sixteen-IsPmm = record { valid = sixteen-IsValid; fits = omega arith; first_used = refl }

abbrev after_three : Pmm
after_three = record sixteen { bytes = 0xe0 ∷ 0x0e ∷ [] }

three_pages : alloc 3 sixteen ≡ done (some 0x2000, after_three)
unfolding alloc clear
three_pages = refl

three_more : alloc 3 after_three ≡ done (some 0x5000, record sixteen { bytes = 0x00 ∷ 0x0e ∷ [] })
unfolding alloc clear
three_more = refl

too_many : alloc 7 sixteen ≡ done (none, sixteen)
unfolding alloc clear
too_many = refl

give_back : free 0xffff800000002000 3 after_three ≡ done sixteen
unfolding free lower_half set
give_back = refl

first_pages : alloc 2 from_zero ≡ panic
unfolding alloc clear
first_pages = refl

alloc-IsAlloc_example : IsAlloc sixteen 3 (alloc 3 sixteen)
alloc-IsAlloc_example = alloc-IsAlloc sixteen-IsPmm 3 (omega arith)

free-alloc_example :
    (b'' : Pmm) × (free (higher_half 0x2000) 3 after_three ≡ done b'')
    × ((j : ℕ) → bit_of b'' j ≡ bit_of sixteen j)
free-alloc_example = free-alloc 3 0x2000 sixteen-IsPmm (omega arith) three_pages

alloc-alloc_disjoint_example : (0x2000 + 3 * page_size ≤ 0x5000) ⊎ (0x5000 + 3 * page_size ≤ 0x2000)
alloc-alloc_disjoint_example =
    alloc-alloc_disjoint 3 3 0x2000 0x5000 sixteen-IsPmm (omega arith) (omega arith) three_pages
      three_more

two_free : (j : ℕ) → 0 ≤ j → j < 2 → bit_of from_zero j ≡ true
unfolding bit_of
two_free zero p q = refl
two_free (suc zero) p q = refl
two_free (suc (suc j)) p q = absurd (omega arith)

abbrev machine : Machine
machine = record { pmm = sixteen; memory = λ a. a }

abbrev a_box : PmmBox
a_box = record { box_ptr = 0xffff800000002000; page_cnt = 2 }

abbrev with_box : Machine
with_box = record {
  pmm = record sixteen { bytes = 0xf0 ∷ 0x0e ∷ [] };
  memory = zero_pages 0x2000 2 machine.memory;
}

boxed : pmm_box 5000 machine ≡ done (a_box, with_box)
unfolding pmm_box div_ceil calloc higher_half clear
boxed = refl

sixteen-KeepsOwn : KeepsOwn sixteen
unfolding lower_half bit_of
sixteen-KeepsOwn a lo hi = let first : a / page_size ≡ 0 = omega arith in rw first refl

drop_box-pmm_box_example :
    ((a : ℕ)
      → lower_half sixteen.data_ptr ≤ a
      → a < lower_half sixteen.data_ptr + sixteen.size
      → with_box.memory a ≡ machine.memory a)
    × (m'' : Machine) × (drop_box a_box with_box ≡ done m'')
    × ((j : ℕ) → bit_of m''.pmm j ≡ bit_of sixteen j)
drop_box-pmm_box_example =
    drop_box-pmm_box 5000 machine with_box a_box sixteen-IsPmm sixteen-KeepsOwn (omega arith)
      (omega arith) boxed

-- One usable region of a mebibyte, and what the bootloader keeps.
abbrev region : MemoryEntry
region = record { base = 0; length = 0x40000; entry_type = usable }

abbrev memory_map : List MemoryEntry
memory_map =
    region
    ∷ record { base = 0x40000; length = 0x8000; entry_type = kernel }
    ∷ record { base = 0x48000; length = 0x1000_0000; entry_type = other }
    ∷ []

init-IsInit_example : IsInit memory_map (init memory_map)
init-IsInit_example = init-IsInit memory_map (omega arith) refl

init-frees_bitmap_page_example :
    (pmm : Pmm) × (rest : List MemoryEntry) × (init memory_map ≡ done (pmm, rest))
    × (page : ℕ) × (bit_of pmm page ≡ true)
    × (pmm.data_ptr ≤ page * page_size + phys_base)
    × (page * page_size + phys_base < pmm.data_ptr + pmm.size)
init-frees_bitmap_page_example =
    init-frees_bitmap_page region
      (record { base = 0x40000; length = 0x8000; entry_type = kernel }
        ∷ record { base = 0x48000; length = 0x1000_0000; entry_type = other }
        ∷ [])
      refl (omega arith) (omega arith) (omega arith) (omega arith)

-- The first page of the region holds the bitmap's nine bytes, and is free.
marked :
    (b : Pmm) × (rest : List MemoryEntry) × (init memory_map ≡ done (b, rest))
    × (b.bytes ≡ 0xff ∷ 0xff ∷ 0xff ∷ 0xff ∷ 0xff ∷ 0xff ∷ 0xff ∷ 0x7f ∷ 0x00 ∷ [])
unfolding init find_biggest reserve mark div_ceil from_raw_ptr set
marked = (_, _, refl, refl)
