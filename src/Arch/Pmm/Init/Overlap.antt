-- ===== src/Arch/Pmm/Init/Overlap.antt =====
-- Where the bitmap's size is no multiple of a page, its last bytes lie in a page that `init` marks as
-- free.
use griffin.Common.{
  ℕ, ◌+◌, ◌*◌, ◌/◌, ◌%◌, ◌^◌, ◌≤◌, ◌<◌, ◌≡◌, ◌≢◌, ◌∙◌, true, some, List, ◌∷◌, arith, done,
}
use griffin.Utils.Math.Laws.{ceil}
use griffin.Utils.Bitmap.Laws.{bit_of}
use griffin.Arch.PhysAddr.{page_size, phys_base}
use griffin.Arch.Pmm.{Pmm}
use griffin.Arch.Pmm.Init.{MemoryEntry, usable, shrink, reserve, init}
use griffin.Arch.Pmm.Init.Marks.{top, covered, has_room, IsBuilt, init-IsBuilt}

module _ (e : MemoryEntry) (es : List MemoryEntry) (use_it : e.entry_type ≡ usable) where
  reserve_first : (n : ℕ) → n ≤ e.length → reserve n (e ∷ es) ≡ some (e.base, shrink n e ∷ es)
  unfolding reserve
  reserve_first n h = ground (arith, use_it)

  has_room_first : (n : ℕ) → n ≤ e.length → has_room n (e ∷ es) ≡ true
  has_room_first n h = ground (arith, use_it)

  covered_first :
      (n : ℕ)
      → n + page_size ≤ e.length
      → covered (shrink n e ∷ es) ((e.base + n) / page_size) ≡ true
  covered_first n h = ground (arith, use_it)

  -- If the first region is usable, aligned and a page larger than the bitmap, whose size is no
  -- multiple of a page, then `init` reports as free a page that starts inside the bitmap.
  pub init-frees_bitmap_page :
      top (e ∷ es) < 2 ^ 47
      → e.base % page_size ≡ 0
      → ceil (top (e ∷ es) / page_size) 8 % page_size ≢ 0
      → ceil (top (e ∷ es) / page_size) 8 + page_size ≤ e.length
      → (pmm : Pmm) × (rest : List MemoryEntry) × (init (e ∷ es) ≡ done (pmm, rest))
        × (page : ℕ) × (bit_of pmm page ≡ true)
        × (pmm.data_ptr ≤ page * page_size + phys_base)
        × (page * page_size + phys_base < pmm.data_ptr + pmm.size)
  init-frees_bitmap_page fits aligned ragged large =
      go (init-IsBuilt (e ∷ es) fits (has_room_first n (omega arith)))
    where
      n : ℕ
      n = ceil (top (e ∷ es) / page_size) 8

      go :
          IsBuilt (e ∷ es) (init (e ∷ es))
          → (pmm : Pmm) × (rest : List MemoryEntry) × (init (e ∷ es) ≡ done (pmm, rest))
            × (page : ℕ) × (bit_of pmm page ≡ true)
            × (pmm.data_ptr ≤ page * page_size + phys_base)
            × (page * page_size + phys_base < pmm.data_ptr + pmm.size)
      go r =
          let (base, found, at) = r.reserved in
          let first = reserve_first r.pmm.size (omega (arith, r.size)) in
          let same_base : base ≡ e.base = cc (found, first) in
          let same_rest : shrink r.pmm.size e ∷ es ≡ r.rest = cc (found, first) in
          (
            r.pmm,
            r.rest,
            r.returns,
            (e.base + r.pmm.size) / page_size,
            r.bits ((e.base + r.pmm.size) / page_size)
                ∙ rw (← same_rest) (covered_first r.pmm.size (omega (arith, r.size))),
            omega (arith, at, same_base),
            omega (arith, at, same_base, r.size, aligned, ragged),
          )
