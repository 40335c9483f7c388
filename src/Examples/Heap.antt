-- ===== src/Examples/Heap.antt =====
-- The heap: a cache of 8-byte objects with one slab, none of them in use.
use griffin.Common.{
  map, Outcome, List, ℕ, zero, suc, ◌<◌, ◌≤◌, ◌≡◌, refl, true, some, [], ◌∷◌, get_or,
  get_or-replicate, replicate, get_elem?, arith, done, panic,
}
use griffin.Utils.Bitmap.{is_set, set, clear, modify, find_clear}
use griffin.Utils.Bitmap.Laws.{bit_of, zeros, zeros-IsValid}
use griffin.Utils.Math.{div_ceil}
use griffin.Arch.Pmm.{Machine, calloc, alloc, alloc_loop, claim, for_bits}
use griffin.Arch.Pmm.Buffers.{new_bitmap}
use griffin.Mm.Slab.{
  init_heap, add_caches, add_cache, cache_new, slab_new, Slab, Cache, slab_alloc, slab_dealloc,
  alloc_from, alloc_obj, free_from, free_obj, in_slab, cache_for, heap_alloc, heap_dealloc,
}
use griffin.Mm.Slab.Objects.{clear_bits, IsSlab}
use griffin.Mm.Slab.Caches.{
  IsSlabs, IsCache, IsAllocObj, AllFull, Apart, SameSlabs, alloc_obj-IsAllocObj, free_obj-alloc_obj,
  alloc_obj-full,
}

abbrev empty_slab : Slab
empty_slab = record {
  free_objs = 256;
  object_size = 8;
  objects = 0x10040;
  bitmap = zeros 0x20000 32;
}

abbrev one_used : Slab
one_used = record {
  free_objs = 255;
  object_size = 8;
  objects = 0x10040;
  bitmap = record { data_ptr = 0x20000; bytes = 1 ∷ replicate 31 0; size = 32 };
}

empty_slab-IsSlab : IsSlab empty_slab
unfolding clear_bits bit_of
empty_slab-IsSlab = record {
  valid = zeros-IsValid 0x20000 32;
  room = omega arith;
  counted = refl;
  sized = omega arith;
  fits = omega arith;
}

one_byte : (i : ℕ) → get_or (1 ∷ replicate 31 0) i 0 < 256
one_byte zero = omega arith
one_byte (suc i) = omega (arith, get_or-replicate {A = ℕ} 31 i 0)

one_used-IsSlab : IsSlab one_used
unfolding clear_bits bit_of
one_used-IsSlab = record {
  valid = record { same_size = refl; is_byte = one_byte };
  room = omega arith;
  counted = refl;
  sized = omega arith;
  fits = omega arith;
}

abbrev small_cache : Cache
small_cache = record {
  object_size = 8;
  pages_per_slab = 1;
  slab_count = 1;
  slabs = empty_slab ∷ [];
}

abbrev used_cache : Cache
used_cache = record small_cache { slabs = one_used ∷ [] }

small_cache-IsCache : IsCache small_cache
small_cache-IsCache = record {
  good = IsSlabs.cons empty_slab-IsSlab (omega arith) (omega arith) Apart.alone IsSlabs.nil;
  count = refl;
}

first_taken : slab_alloc empty_slab ≡ done (some 0x10040, one_used)
unfolding slab_alloc find_clear is_set set modify
first_taken = refl

first_served : alloc_obj small_cache ≡ done (some 0x10040, used_cache)
unfolding alloc_obj alloc_from slab_alloc find_clear is_set set modify
first_served = refl

served_back : free_obj 0x10040 used_cache ≡ done small_cache
unfolding free_obj free_from in_slab slab_dealloc clear modify
served_back = refl

heap_first : heap_alloc 5 (small_cache ∷ []) ≡ done (some 0x10040, used_cache ∷ [])
unfolding heap_alloc cache_for alloc_obj alloc_from slab_alloc find_clear is_set set modify
heap_first = refl

heap_back : heap_dealloc 0x10040 5 (used_cache ∷ []) ≡ done (small_cache ∷ [])
unfolding heap_dealloc cache_for free_obj free_from in_slab slab_dealloc clear modify
heap_back = refl

first_used : bit_of one_used.bitmap 0 ≡ true
unfolding bit_of
first_used = refl

abbrev GivenBack : Type 0
GivenBack =
    (s'' : Slab) × (slab_dealloc 0x10040 one_used ≡ done s'')
    × IsSlab s''
    × (s''.free_objs ≡ empty_slab.free_objs)
    × ((j : ℕ) → bit_of s''.bitmap j ≡ bit_of empty_slab.bitmap j)

alloc_obj-IsAllocObj_example : IsAllocObj small_cache (alloc_obj small_cache)
alloc_obj-IsAllocObj_example = alloc_obj-IsAllocObj small_cache small_cache-IsCache

free_obj-alloc_obj_example :
    (c'' : Cache) × (free_obj 0x10040 used_cache ≡ done c'') × SameSlabs small_cache.slabs c''.slabs
free_obj-alloc_obj_example =
    free_obj-alloc_obj small_cache used_cache 0x10040 small_cache-IsCache first_served

abbrev full_cache : Cache
full_cache = record small_cache { slabs = record empty_slab { free_objs = 0 } ∷ [] }

full_panics : alloc_obj full_cache ≡ panic
full_panics = alloc_obj-full full_cache (AllFull.one_full refl AllFull.no_slab)

abbrev large_cache : Cache
large_cache = record small_cache { object_size = 16 }

above_small : (j : ℕ) (d : Cache) → get_elem? (large_cache ∷ []) j ≡ some d → 8 ≤ d.object_size
above_small zero d e = let same : large_cache ≡ d = ground arith in rw (← same) (omega arith)
above_small (suc j) d e = absurd (ground arith)

-- The first 576 pages are free but the first, and `size_of::<Slab>()` is 80.
abbrev free_machine : Machine
free_machine = record {
  pmm = record { data_ptr = 0; bytes = 0xfe ∷ replicate 71 0xff; size = 72 };
  memory = λ a. 0;
}

abbrev sizes_of : Outcome (List Cache × Machine) → List ℕ
sizes_of panic = []
sizes_of (done (caches, m)) = map (λ (c : Cache). c.object_size) caches

abbrev counts_of : Outcome (List Cache × Machine) → List ℕ
counts_of panic = []
counts_of (done (caches, m)) = map (λ (c : Cache). c.pages_per_slab) caches

heap_sizes :
    sizes_of (init_heap 80 free_machine)
    ≡ 8 ∷ 16 ∷ 32 ∷ 64 ∷ 128 ∷ 256 ∷ 512 ∷ 1024 ∷ 2048 ∷ 4096 ∷ []
unfolding init_heap add_caches add_cache cache_new slab_new new_bitmap calloc alloc alloc_loop claim
    for_bits is_set clear modify div_ceil
heap_sizes = refl

heap_pages :
    counts_of (init_heap 80 free_machine) ≡ 1 ∷ 2 ∷ 3 ∷ 5 ∷ 9 ∷ 17 ∷ 33 ∷ 65 ∷ 129 ∷ 257 ∷ []
unfolding init_heap add_caches add_cache cache_new slab_new new_bitmap calloc alloc alloc_loop claim
    for_bits is_set clear modify div_ceil
heap_pages = refl
