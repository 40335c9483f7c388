-- ===== src/Examples/Paging.antt =====
-- The page tables: one empty top table in page 1.
use griffin.Common.{
  map, ◌+◌, ℕ, zero, suc, ◌>>=◌, ◌/◌, ◌^◌, ◌≤◌, ◌<◌, ◌≡◌, refl, bit_and, bit_or, true, false,
  Option, none, some, List, [], ◌∷◌, length, get_or, arith, Outcome, done, panic, ◌==◌, ==_iff,
  if◌then◌else◌,
}
use griffin.Utils.Bitmap.Laws.{bit_of}
use griffin.Arch.PhysAddr.{page_size, not64, remove_flags, higher_half, lower_half}
use griffin.Arch.Pmm.{Pmm, Machine, calloc, alloc, alloc_loop, claim, for_bits}
use griffin.Utils.Bitmap.{clear, is_set, modify}
use griffin.Arch.Pmm.Alloc.{IsPmm}
use griffin.Arch.Memory.{load, store}
use griffin.Mm.Flags.{Bitflags}
use griffin.Mm.Flags.Prot.{page_flags}
use griffin.Mm.Ranges.{VirtualMemManager, VirtMemoryRange, new_vmm, mmap, map_range, meets}
use griffin.Mm.VirtAddr.{pml4, pdp, pd, pt, phys_addr}
use griffin.Mm.Vmm.{get_next_level, page_table, link, map_page, get_mapping}
use griffin.Mm.Vmm.Tables.{Place, IsPaging, has, FewFree}
use griffin.Mm.Vmm.Next.{IsNext}
use griffin.Mm.Vmm.Next.Level.{get_next_level-IsNext}
use griffin.Mm.Vmm.MapPage.{IsMap, IsRead, map_page-IsMap, get_mapping-IsRead, phys_addr-map_page}

-- The crate's operations on plain numbers.
abbrev pub plain : Bitflags
plain = record {
  contains = λ a b. bit_and a b == b;
  union = bit_or;
  remove = λ a b. bit_and a (not64 b);
  contains_iff = λ a b. ==_iff (bit_and a b) b;
  union_lem = λ a b. refl;
  remove_lem = λ a b. refl;
}

abbrev pages : Pmm
pages = record { data_ptr = 0; bytes = 0xfc ∷ 0x0e ∷ []; size = 2 }

all_bytes : (a b i : ℕ) → a < 256 → b < 256 → get_or (a ∷ b ∷ []) i 0 < 256
all_bytes a b zero ha hb = ha
all_bytes a b (suc zero) ha hb = hb
all_bytes a b (suc (suc i)) ha hb = omega arith

pages-IsPmm : IsPmm pages
unfolding bit_of
pages-IsPmm = record {
  valid = record {
    same_size = refl;
    is_byte = λ i. all_bytes 0xfc 0x0e i (omega arith) (omega arith);
  };
  fits = omega arith;
  first_used = refl;
}

abbrev pub fresh : Machine
fresh = record { pmm = pages; memory = λ a. 0 }

abbrev pub place : ℕ → Option Place
place t = if t == 4096 then some [] else none

pub place_only : (t : ℕ) (π : Place) → place t ≡ some π → t ≡ 4096
place_only t π e = ground arith

used_page : (t : ℕ) → t ≡ 4096 → bit_of pages (t / page_size) ≡ false
unfolding bit_of
used_page t e = rw e refl

pub fresh-IsPaging : IsPaging 4096 place fresh
fresh-IsPaging = record {
  pmm = pages-IsPmm;
  root = refl;
  aligned = λ t π e. omega (arith, place_only t π e);
  low = λ t π e. omega (arith, place_only t π e);
  used = λ t π e. used_page t (place_only t π e);
  linked = λ t i π e above hi there. absurd (there refl);
}

three_in : (l : List ℕ) → length l ≤ 2 → has 2 l ≡ true → has 3 l ≡ true → has 4 l ≡ true → ⊥
three_in [] h a b c = cc
three_in (x ∷ []) h a b c = ground arith
three_in (x ∷ y ∷ []) h a b c = ground arith
three_in (x ∷ y ∷ z ∷ l) h a b c = absurd (omega arith)

enough : ¬ FewFree 2 pages
unfolding bit_of
enough (l, short, all) = three_in l short (all 2 refl) (all 3 refl) (all 4 refl)

map_page-IsMap_example :
    IsMap plain 4096 fresh 0xdead_b000
      (bit_or 0x7000 3)
      (map_page plain 4096 0xdead_b000 0x7000 3 true fresh)
map_page-IsMap_example = map_page-IsMap plain fresh-IsPaging 0xdead_b000 0x7000 3 true

get_mapping-IsRead_example :
    IsRead 4096 fresh 0xdead_b000 (get_mapping plain 4096 0xdead_b000 fresh)
get_mapping-IsRead_example = get_mapping-IsRead plain fresh-IsPaging 0xdead_b000

get_next_level-IsNext_example :
    IsNext 4096 place fresh 4096 3 [] (get_next_level plain 4096 3 fresh)
get_next_level-IsNext_example =
    get_next_level-IsNext plain fresh-IsPaging refl (omega arith) (omega arith)

phys_addr-map_page_example :
    (m' : Machine) × (entry : ℕ) × (map_page plain 4096 0xdead_b000 0x7000 3 true fresh ≡ done m')
    × (get_mapping plain 4096 0xdead_b000 m' ≡ done (entry, m'))
    × (phys_addr entry ≡ 0x7000)
unfolding remove_flags
phys_addr-map_page_example =
    phys_addr-map_page plain fresh-IsPaging 0xdead_b000 0x7000 3 true refl (omega arith) refl enough

-- Two pages of one table, mapped in turn; the walk takes pages 2, 3 and 4 for tables.
value_of : Outcome (ℕ × Machine) → ℕ
value_of panic = 0
value_of (done (v, m)) = v

then_map : Outcome Machine → Outcome (ℕ × Machine)
then_map panic = panic
then_map (done m) =
    map_page plain 4096 0xdead_c000 0x8000 1 true m >>= λ m'. get_mapping plain 4096 0xdead_b000 m'

two_maps : value_of (then_map (map_page plain 4096 0xdead_b000 0x7000 3 true fresh)) ≡ 0x7003
unfolding value_of then_map map_page get_mapping page_table get_next_level load calloc clear link
    store lower_half higher_half pml4 pdp pd pt remove_flags
two_maps = refl

-- An address space for a program, then a file-less map of two pages in it: their entries are kept in
-- the tables, not present.
abbrev mapped_entry : ℕ → Outcome (VirtualMemManager ℕ × Machine) → Option ℕ
mapped_entry addr panic = none
mapped_entry addr (done (vmm, m)) = some (value_of (get_mapping plain vmm.pagemap addr m))

abbrev ranges_of : Outcome (VirtualMemManager ℕ × Machine) → List (VirtMemoryRange ℕ)
ranges_of panic = []
ranges_of (done (vmm, m)) = vmm.ranges

abbrev mapped_program : Outcome (VirtualMemManager ℕ × Machine)
mapped_program = new_vmm true (some 4096) fresh >>= λ (vmm, m).
    mmap plain (some 0x40_0000) 0x1800 3 2 none 0 vmm m

second_page : mapped_entry 0x40_1000 mapped_program ≡ some (2 ^ 63 + 2 ^ 9)
unfolding value_of new_vmm mmap map_range meets page_flags map_page get_mapping page_table
    get_next_level load calloc alloc alloc_loop claim for_bits is_set modify clear link store
    lower_half higher_half pml4 pdp pd pt remove_flags
second_page = refl

one_range : map (λ (r : VirtMemoryRange ℕ). r.length) (ranges_of mapped_program) ≡ 0x1800 ∷ []
unfolding value_of new_vmm mmap map_range meets page_flags map_page get_mapping page_table
    get_next_level load calloc alloc alloc_loop claim for_bits is_set modify clear link store
    lower_half higher_half pml4 pdp pd pt remove_flags
one_range = refl
