-- ===== src/Arch/Pmm/Init.antt =====
-- arch/x86_64/mm/pmm.rs, `init`: the bitmap is put at the start of a usable region of the
-- bootloader's memory map, and the pages of the usable regions are marked as free.
pub mod Marks
pub mod Places
pub mod Overlap
use griffin.Common.{
  ℕ, ◌+◌, ◌-◌, ◌/◌, Bool, true, false, not, ◌&&◌, Option, none, some, List, [], ◌∷◌, replicate,
  Outcome, done, panic, ◌>>=◌, expect, ltb, if◌then◌else◌, add_checked,
}
use griffin.Utils.Math.{div_ceil}
use griffin.Utils.Bitmap.{Bitmap, set, from_raw_ptr}
use griffin.Arch.PhysAddr.{page_size, phys_base}
use griffin.Arch.Pmm.{Pmm, for_bits}

-- The types of a memory map entry that the code tells apart; `other` is every other one.
pub data EntryType : Type 0 where
  usable bootloader_reclaimable kernel other : EntryType

pub record MemoryEntry : Type 0 where
  pub base : ℕ
  pub length : ℕ
  pub entry_type : EntryType

abbrev pub is_usable : EntryType → Bool
is_usable usable = true
is_usable bootloader_reclaimable = false
is_usable kernel = false
is_usable other = false

-- The types that count for the end of memory.
abbrev pub is_memory : EntryType → Bool
is_memory usable = true
is_memory bootloader_reclaimable = true
is_memory kernel = true
is_memory other = false

-- One round of the first loop.
unfoldable pub raise : MemoryEntry → ℕ → Outcome ℕ
raise e biggest =
    if is_memory e.entry_type
    then (add_checked e.base e.length >>= λ peak. done (if ltb biggest peak then peak else biggest))
    else done biggest

unfoldable pub find_biggest : List MemoryEntry → ℕ → Outcome ℕ
unfolding raise
find_biggest [] biggest = done biggest
find_biggest (e ∷ es) biggest = raise e biggest >>= find_biggest es

abbrev pub shrink : ℕ → MemoryEntry → MemoryEntry
shrink n e = record e { base = e.base + n; length = e.length - n }

abbrev pub put_back : MemoryEntry → Option (ℕ × List MemoryEntry) → Option (ℕ × List MemoryEntry)
put_back e none = none
put_back e (some (ptr, es)) = some (ptr, e ∷ es)

-- The second loop: the physical address of the bitmap, and the map without its bytes.
unfoldable pub reserve : ℕ → List MemoryEntry → Option (ℕ × List MemoryEntry)
reserve n [] = none
reserve n (e ∷ es) =
    if is_usable e.entry_type && not (ltb e.length n)
    then some (e.base, shrink n e ∷ es)
    else put_back e (reserve n es)

-- The third loop.
unfoldable pub mark : List MemoryEntry → Pmm → Outcome Pmm
unfolding for_bits
mark [] b = done b
mark (e ∷ es) b =
    (if is_usable e.entry_type
      then for_bits set (e.base / page_size) (e.length / page_size) b
      else done b)
    >>= mark es

-- The new allocator, and the memory map as it is left.
unfoldable pub init : List MemoryEntry → Outcome (Pmm × List MemoryEntry)
init entries = do
  biggest ← find_biggest entries 0
  bitmap_size ← div_ceil (biggest / page_size) 8
  (base, entries') ← expect (reserve bitmap_size entries)
  bitmap_ptr ← add_checked base phys_base
  b ← mark entries' (from_raw_ptr bitmap_ptr (replicate bitmap_size 0))
  done (b, entries')
