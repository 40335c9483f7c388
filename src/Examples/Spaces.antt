-- ===== src/Examples/Spaces.antt =====
-- Address spaces over the tables of Examples/Paging.
use griffin.Common.{ℕ, ◌≡◌, refl, none, some, [], arith, Outcome, done, panic, true}
use griffin.Arch.PhysAddr.{remove_flags, higher_half, lower_half}
use griffin.Arch.Pmm.{Machine, calloc, alloc, alloc_loop, claim, for_bits}
use griffin.Utils.Bitmap.{clear, is_set, modify}
use griffin.Arch.Memory.{load, store}
use griffin.Mm.Flags.Prot.{page_flags}
use griffin.Mm.Ranges.{VirtualMemManager, new_vmm, mmap, map_range, meets, get_range}
use griffin.Mm.Ranges.Mmap.{IsMmap, mmap-IsMmap, get_range-mmap, new_range, reserved}
use griffin.Mm.Ranges.Spaces.{IsSpace, new_vmm-IsSpace}
use griffin.Mm.VirtAddr.{pml4, pdp, pd, pt}
use griffin.Mm.Vmm.{get_next_level, page_table, link, map_page}
use griffin.Mm.Vmm.Tables.{translate}
use griffin.Examples.Paging.{plain, fresh, place, fresh-IsPaging}

abbrev unmapped : VirtualMemManager ℕ
unmapped = record { pagemap = 4096; ranges = [] }

mmap-IsMmap_example :
    IsMmap plain 0x1800 3 2 none 0 unmapped fresh
      (some 0x40_0000)
      (mmap plain (some 0x40_0000) 0x1800 3 2 none 0 unmapped fresh)
mmap-IsMmap_example =
    mmap-IsMmap plain 0x1800 3 2 none 0 unmapped fresh fresh-IsPaging
      (λ j d e. absurd (ground arith)) (some 0x40_0000)

abbrev result : Outcome (VirtualMemManager ℕ × Machine) → VirtualMemManager ℕ × Machine
result panic = (unmapped, fresh)
result (done r) = r

abbrev mapped : VirtualMemManager ℕ × Machine
mapped = result (mmap plain (some 0x40_0000) 0x1800 3 2 none 0 unmapped fresh)

get_range-mmap_example :
    (get_range 0x40_17ff mapped.0.ranges
      ≡ done (some (new_range plain 0x1800 3 2 none 0 unmapped fresh 0x40_0000)))
    × (translate mapped.1.memory 4096 0x40_17ff ≡ reserved plain 3)
unfolding mmap map_range meets page_flags map_page page_table get_next_level load calloc alloc
    alloc_loop claim for_bits is_set modify clear link store lower_half higher_half pml4 pdp pd pt
    remove_flags get_range
get_range-mmap_example =
    get_range-mmap plain 0x1800 3 2 none 0 unmapped fresh fresh-IsPaging
      (λ j d e. absurd (ground arith)) 0x40_0000 0x40_17ff mapped.0 mapped.1 refl
      (omega arith, omega arith) refl refl (omega arith)

new_vmm-IsSpace_example : IsSpace ℕ 4096 place fresh (new_vmm true (some 4096) fresh)
new_vmm-IsSpace_example = new_vmm-IsSpace ℕ fresh-IsPaging
