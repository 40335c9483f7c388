-- ===== src/Arch/Pmm/Init/Places.antt =====
-- Where `init` puts the bitmap, and which pages are free after it.
use griffin.Common.{
  ℕ, ◌+◌, ◌-◌, ◌*◌, ◌/◌, ◌%◌, ◌^◌, ◌≤◌, ◌<◌, ◌≡◌, refl, sym, ap, ◌∙◌, ◌⊎◌, ◌↔◌, inl, inr, true,
  false, not, ◌&&◌, Option, none, some, List, [], ◌∷◌, ◌++◌, arith, Outcome, done, ltb, Bool-cases,
}
use griffin.Utils.Math.Laws.{ceil}
use griffin.Utils.Bitmap.Laws.{bit_of, IsValid}
use griffin.Arch.PhysAddr.{page_size, phys_base}
use griffin.Arch.Pmm.{Pmm}
use griffin.Arch.Pmm.Init.{
  EntryType, usable, bootloader_reclaimable, kernel, other, MemoryEntry, is_usable, shrink,
  put_back, reserve, init,
}
use griffin.Arch.Pmm.Init.Marks.{top, covered, has_room, IsBuilt, init-IsBuilt}

-- Page `j` lies in the region that has the bytes of `e`, moved down to a page boundary.
abbrev pub HoldsPage : MemoryEntry → ℕ → Type 0
HoldsPage e j =
    (e.base - e.base % page_size ≤ j * page_size)
    × (j * page_size + page_size ≤ e.base - e.base % page_size + e.length)

-- Some usable region does so.
abbrev pub SomeHolds : List MemoryEntry → ℕ → Type 0
SomeHolds [] j = ⊥
SomeHolds (e ∷ es) j = ((e.entry_type ≡ usable) × HoldsPage e j) ⊎ SomeHolds es j

-- `region` is the first usable one with room for `n` bytes, and `rest` is the map without these bytes.
pub record IsTaken (n : ℕ) (entries rest : List MemoryEntry) (base : ℕ) : Type 0 where
  pub front : List MemoryEntry
  pub region : MemoryEntry
  pub back : List MemoryEntry
  pub split : entries ≡ front ++ (region ∷ back)
  pub no_room : has_room n front ≡ false
  pub usable_region : region.entry_type ≡ usable
  pub long : n ≤ region.length
  pub start : base ≡ region.base
  pub left :
      rest ≡ front ++ (record region { base = region.base + n; length = region.length - n } ∷ back)

-- What `init` makes of the memory map `entries`.
pub record IsInit (entries : List MemoryEntry) (result : Outcome (Pmm × List MemoryEntry))
    : Type 0 where
  pub pmm : Pmm
  pub rest : List MemoryEntry
  pub base : ℕ
  pub returns : result ≡ done (pmm, rest)
  pub valid : IsValid pmm
  pub size : pmm.size ≡ ceil (top entries / page_size) 8
  pub taken : IsTaken pmm.size entries rest base
  pub place : pmm.data_ptr ≡ base + phys_base
  pub bits : (j : ℕ) → (bit_of pmm j ≡ true) ↔ SomeHolds rest j

usable_iff : (t : EntryType) → (is_usable t ≡ true) ↔ (t ≡ usable)
usable_iff usable = (λ h. refl, λ h. refl)
usable_iff bootloader_reclaimable = (λ h. cc, λ h. ap is_usable h)
usable_iff kernel = (λ h. cc, λ h. ap is_usable h)
usable_iff other = (λ h. cc, λ h. ap is_usable h)

covered-SomeHolds : (es : List MemoryEntry) (j : ℕ) → covered es j ≡ true → SomeHolds es j
covered-SomeHolds [] j h = cc
covered-SomeHolds (e ∷ es) j h = elim (Bool-cases (covered es j)) [
  | inl later ↦ inr (covered-SomeHolds es j later)
  | inr never ↦
      let use_it : is_usable e.entry_type ≡ true = ground (arith, h, never) in
      inl ((usable_iff e.entry_type).0 use_it, (ground (arith, h, never), ground (arith, h, never)))
]

SomeHolds-covered : (es : List MemoryEntry) (j : ℕ) → SomeHolds es j → covered es j ≡ true
SomeHolds-covered [] j h = elim h [ ]
SomeHolds-covered (e ∷ es) j (inl (use_it, (low, high))) =
    let used : is_usable e.entry_type ≡ true = (usable_iff e.entry_type).1 use_it in
    ground (arith, used, low, high)
SomeHolds-covered (e ∷ es) j (inr later) = ground (arith, SomeHolds-covered es j later)

-- The region that `reserve` takes its bytes from.
reserve-IsTaken :
    (n : ℕ) (es rest : List MemoryEntry) (base : ℕ)
    → reserve n es ≡ some (base, rest)
    → IsTaken n es rest base
unfolding reserve
reserve-IsTaken n [] rest base h = cc
reserve-IsTaken n (e ∷ es) rest base h =
    elim (Bool-cases (is_usable e.entry_type && not (ltb e.length n))) [
      | inl here ↦
          let e1 : ◌≡◌ {A = Option (ℕ × List MemoryEntry)} (some (e.base, shrink n e ∷ es))
              (some (base, rest)) =
            (rw here at h) in
          record {
            front = [];
            region = e;
            back = es;
            split = refl;
            no_room = refl;
            usable_region = (usable_iff e.entry_type).0 (ground (arith, here));
            long = ground (arith, here);
            start = cc;
            left = cc;
          }
      | inr skip ↦
          later skip (λ base' rest' q. reserve-IsTaken n es rest' base' q) (reserve n es) refl
            (rw skip at h)
    ]
  where
    later :
        (is_usable e.entry_type && not (ltb e.length n)) ≡ false
        → ((base' : ℕ) (rest' : List MemoryEntry)
            → reserve n es ≡ some (base', rest')
            → IsTaken n es rest' base')
        → (r : Option (ℕ × List MemoryEntry)) → reserve n es ≡ r
        → put_back e r ≡ some (base, rest)
        → IsTaken n (e ∷ es) rest base
    later skip taken none q p = cc
    later skip taken (some (base', rest')) q p =
        let t = taken base' rest' q in
        let same_base : base' ≡ base = cc in
        let same_rest : e ∷ rest' ≡ rest = cc in
        record {
          front = e ∷ t.front;
          region = t.region;
          back = t.back;
          split = ap (λ (xs : List MemoryEntry). e ∷ xs) t.split;
          no_room = ground (arith, skip, t.no_room);
          usable_region = t.usable_region;
          long = t.long;
          start = sym same_base ∙ t.start;
          left = sym same_rest ∙ ap (λ (xs : List MemoryEntry). e ∷ xs) t.left;
        }

-- If memory, that is the usable, the reclaimable and the kernel's regions, ends below 2^47, and a usable
-- region has room for the bitmap, `init` returns. The bitmap has a bit for each whole page below the
-- end of memory, rounded up to whole bytes; its bytes are the first ones of the first
-- usable region that has room for them, and the map that is left is the old one without these bytes. A
-- page is free exactly if, in the map that is left, it lies in a usable region after the region was
-- moved down, with its length, to the page boundary at or below its start.
pub init-IsInit :
    (entries : List MemoryEntry)
    → top entries < 2 ^ 47
    → has_room (ceil (top entries / page_size) 8) entries ≡ true
    → IsInit entries (init entries)
init-IsInit entries fits room = go (init-IsBuilt entries fits room)
  where
    go : {r : Outcome (Pmm × List MemoryEntry)} → IsBuilt entries r → IsInit entries r
    go b =
        let (base, found, at) = b.reserved in
        record {
          pmm = b.pmm;
          rest = b.rest;
          base = base;
          returns = b.returns;
          valid = b.valid;
          size = b.size;
          taken = reserve-IsTaken b.pmm.size entries b.rest base found;
          place = at;
          bits = λ j. (
            λ h. covered-SomeHolds b.rest j (sym (b.bits j) ∙ h),
            λ h. b.bits j ∙ SomeHolds-covered b.rest j h,
          );
        }
