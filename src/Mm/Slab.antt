-- ===== src/Mm/Slab.antt =====
-- mm/slab.rs: the kernel heap. A cache's slabs and the allocator's caches are linked lists in the
-- source and lists here, in the order of their `next` pointers; a null dereference at the end of one
-- is a panic. `slab_bytes` is `size_of::<Slab>()`, which the compiler chooses. The headers that the
-- source keeps in front of the objects are the records. A cache's name and a slab's `previous`, which
-- stays null, are never read; its `data` is called `objects` here.
pub mod Objects
pub mod Caches
pub mod Sizes
use griffin.Common.{
  ℕ, zero, suc, ◌+◌, ◌-◌, ◌*◌, Bool, true, false, Option, none, some, List, [], ◌∷◌, get_elem?,
  set as set_elem, Outcome, done, panic, ◌>>=◌, expect, ltb, leb, ◌==◌, if◌then◌else◌, add_checked,
  sub_checked, mul_checked, div_checked,
}
use mathlib.Core.Option
use griffin.Utils.Math.{div_ceil}
use griffin.Utils.Bitmap.{Bitmap, set, clear, find_clear}
use griffin.Arch.PhysAddr.{page_size, higher_half}
use griffin.Arch.Pmm.{Machine, calloc}
use griffin.Arch.Pmm.Buffers.{new_bitmap}

abbrev pub objs_per_slab : ℕ
objs_per_slab = 256

pub record Slab : Type 0 where
  pub free_objs : ℕ
  pub object_size : ℕ
  pub objects : ℕ
  pub bitmap : Bitmap

pub record Cache : Type 0 where
  pub object_size : ℕ
  pub pages_per_slab : ℕ
  pub slab_count : ℕ
  pub slabs : List Slab

-- The object at a set bit's index is in use; no pointer is `none`.
abbrev pub take_obj : Slab → Option ℕ → Outcome (Option ℕ × Slab)
take_obj s none = done (none, s)
take_obj s (some i) = do
  bitmap ← set s.bitmap i
  free_objs ← sub_checked s.free_objs 1
  offset ← mul_checked i s.object_size
  done (some (s.objects + offset), record s { free_objs = free_objs; bitmap = bitmap })

unfoldable pub slab_alloc : Slab → Outcome (Option ℕ × Slab)
slab_alloc s =
    if s.free_objs == 0 then done (none, s) else find_clear s.bitmap 0 objs_per_slab >>= take_obj s

unfoldable pub slab_dealloc : ℕ → Slab → Outcome Slab
slab_dealloc ptr s = do
  offset ← sub_checked ptr s.objects
  bit ← div_checked offset s.object_size
  free_objs ← add_checked s.free_objs 1
  bitmap ← clear s.bitmap bit
  done (record s { free_objs = free_objs; bitmap = bitmap })

module _ (slab_bytes : ℕ) where
  -- The new slab is the head of its parent's list.
  unfoldable pub slab_new : Cache → Machine → Outcome (Cache × Machine)
  slab_new parent m = do
    (page, m') ← calloc parent.pages_per_slab m
    mem ← expect page
    (bitmap, m'') ← new_bitmap page_size m'
    let slab : Slab = record {
      free_objs = objs_per_slab;
      object_size = parent.object_size;
      objects = higher_half mem + slab_bytes;
      bitmap = bitmap;
    }
    done (record parent { slabs = slab ∷ parent.slabs; slab_count = parent.slab_count + 1 }, m'')

  unfoldable pub cache_new : ℕ → Machine → Outcome (Cache × Machine)
  cache_new obj_size m = do
    (page, m') ← calloc 1 m
    cache_ptr ← expect page
    total ← mul_checked objs_per_slab obj_size
    bytes ← add_checked total slab_bytes
    pages ← div_ceil bytes page_size
    slab_new (record { object_size = obj_size; pages_per_slab = pages; slab_count = 0; slabs = [] })
        m'

  unfoldable pub add_cache : ℕ → List Cache × Machine → Outcome (List Cache × Machine)
  add_cache obj_size (caches, m) = do (cache, m') ← cache_new obj_size m; done (cache ∷ caches, m')

  unfoldable pub add_caches : List ℕ → List Cache × Machine → Outcome (List Cache × Machine)
  unfolding add_cache
  add_caches [] state = done state
  add_caches (obj_size ∷ sizes) state = add_cache obj_size state >>= add_caches sizes

  unfoldable pub init_heap : Machine → Outcome (List Cache × Machine)
  init_heap m = add_caches (4096 ∷ 2048 ∷ 1024 ∷ 512 ∷ 256 ∷ 128 ∷ 64 ∷ 32 ∷ 16 ∷ 8 ∷ []) ([], m)

-- `alloc_obj`: the loop ends only at a slab that is not full, so the branch behind it, which tests
-- the same count again, is never taken.
unfoldable pub alloc_from : List Slab → Outcome (Option ℕ × List Slab)
alloc_from [] = panic
alloc_from (s ∷ rest) =
    let later = alloc_from rest in
    if s.free_objs == 0
    then (do (ptr, rest') ← later; done (ptr, s ∷ rest'))
    else (do (ptr, s') ← slab_alloc s; done (ptr, s' ∷ rest))

unfoldable pub alloc_obj : Cache → Outcome (Option ℕ × Cache)
unfolding alloc_from
alloc_obj cache = do
  (ptr, slabs) ← alloc_from cache.slabs
  done (ptr, record cache { slabs = slabs })

-- The test of `free_obj`; its second part is computed only where the first holds.
unfoldable pub in_slab : ℕ → ℕ → Slab → Outcome Bool
in_slab ptr pages s =
    if leb s.objects ptr
    then (do
      span ← mul_checked pages page_size
      top ← add_checked s.objects span
      done (ltb ptr top))
    else done false

-- The loop of `free_obj` with `left` rounds to go.
unfoldable pub free_from : ℕ → ℕ → ℕ → List Slab → Outcome (List Slab)
unfolding in_slab
free_from ptr pages zero slabs = panic
free_from ptr pages (suc left) [] = panic
free_from ptr pages (suc left) (s ∷ rest) =
    let later = free_from ptr pages left rest in
    in_slab ptr pages s >>= λ found.
    if found
    then (do s' ← slab_dealloc ptr s; done (s' ∷ rest))
    else (do rest' ← later; done (s ∷ rest'))

unfoldable pub free_obj : ℕ → Cache → Outcome Cache
unfolding free_from
free_obj ptr cache = do
  slabs ← free_from ptr cache.pages_per_slab cache.slab_count cache.slabs
  done (record cache { slabs = slabs })

-- The position of the first cache whose objects are large enough.
unfoldable pub cache_for : ℕ → List Cache → Option ℕ
cache_for size [] = none
cache_for size (c ∷ cs) =
    let later = cache_for size cs in if ltb c.object_size size then Option.map suc later else some 0

-- The cache at a position is changed in place.
abbrev pub cache_at : List Cache → Option ℕ → Outcome (ℕ × Cache)
cache_at caches k = do at ← expect k; cache ← expect (get_elem? caches at); done (at, cache)

-- `GlobalAlloc::alloc` and `dealloc`
unfoldable pub heap_alloc : ℕ → List Cache → Outcome (Option ℕ × List Cache)
unfolding cache_for alloc_obj
heap_alloc size caches = do
  (at, cache) ← cache_at caches (cache_for size caches)
  (ptr, cache') ← alloc_obj cache
  done (ptr, set_elem caches at cache')

unfoldable pub heap_dealloc : ℕ → ℕ → List Cache → Outcome (List Cache)
unfolding cache_for free_obj
heap_dealloc ptr size caches = do
  (at, cache) ← cache_at caches (cache_for size caches)
  cache' ← free_obj ptr cache
  done (set_elem caches at cache')
