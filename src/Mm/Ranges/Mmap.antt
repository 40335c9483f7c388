-- ===== src/Mm/Ranges/Mmap.antt =====
-- mm/vmm.rs, `mmap` as a whole, and what `get_range` then finds.
use griffin.Common.{
  ℕ, zero, suc, ◌+◌, ◌-◌, ◌*◌, ◌%◌, ◌^◌, ◌≤◌, ◌<◌, ◌≡◌, refl, ap, ◌∙◌, ◌⊎◌, inl, inr, Bool, true,
  false, Bool-cases, Option, none, some, List, [], ◌∷◌, ◌++◌, get_elem?, arith, Outcome, done,
  panic, ◌>>=◌, if◌then◌else◌, ltb, dec_lt,
}
use griffin.Arch.PhysAddr.{page_size}
use griffin.Arch.Pmm.{Machine}
use griffin.Utils.Math.Laws.{ceil, ceil_bounds}
use griffin.Mm.Flags.{Bitflags}
use griffin.Mm.Flags.PageFlags
use griffin.Mm.Flags.MapFlags
use griffin.Mm.Flags.Prot.{page_flags}
use griffin.Mm.Ranges.{VirtMemoryRange, VirtualMemManager, get_range, meets, map_range, mmap}
use griffin.Mm.Ranges.Lookup.{Inside, inside_yes, inside-cases}
use griffin.Mm.Ranges.Pages.{covers, covers_iff, IsMapped, map_range-IsMapped}
use griffin.Mm.Vmm.Tables.{translate, Place, IsPaging, FewFree}
use griffin.Fs.Vfs.{FileDescription}

module _ {Fs : Type 0} where
  -- Every range ends below 2^64.
  abbrev pub Fits : List (VirtMemoryRange Fs) → Type 0
  Fits ranges =
      (j : ℕ) (d : VirtMemoryRange Fs) → get_elem? ranges j ≡ some d → d.base + d.length < 2 ^ 64

  -- An end of `low`..`high` lies strictly inside one of the ranges.
  abbrev pub Meets : ℕ → ℕ → List (VirtMemoryRange Fs) → Type 0
  Meets low high ranges =
      (j : ℕ) × (d : VirtMemoryRange Fs) × (get_elem? ranges j ≡ some d)
      × (Inside low d ⊎ Inside high d)

  -- `meets` decides it.
  meets-cases :
      (low high : ℕ) (ranges : List (VirtMemoryRange Fs))
      → Fits ranges
      → ((meets low high ranges ≡ done true) × Meets low high ranges)
        ⊎ ((meets low high ranges ≡ done false) × ¬ Meets low high ranges)
  unfolding meets
  meets-cases low high [] fits = inr (refl, λ (j, d, e, h). absurd (ground arith))
  meets-cases low high (r ∷ rest) fits =
      let later = meets-cases low high rest (λ j d e. fits (suc j) d e) in
      elim (inside-cases low r (fits 0 r refl)) [
        | inl (e, h) ↦ inl (rw e refl, (0, r, refl, inl h))
        | inr (e, h) ↦ elim (inside-cases high r (fits 0 r refl)) [
          | inl (e', h') ↦ inl (rw (e, e') refl, (0, r, refl, inr h'))
          | inr (e', h') ↦ elim later [
            | inl (q, (j, d, at, w)) ↦ inl (rw (e, e') q, (suc j, d, at, w))
            | inr (q, w) ↦ inr (rw (e, e') q, not_there r rest h h' w)
          ]
        ]
      ]
    where
      not_there :
          (r : VirtMemoryRange Fs) (rest : List (VirtMemoryRange Fs))
          → ¬ Inside low r
          → ¬ Inside high r
          → ¬ Meets low high rest
          → ¬ Meets low high (r ∷ rest)
      not_there r rest h h' w (zero, d, at, inl x) =
          let same : r ≡ d = ground arith in absurd ((rw (same) at h) x)
      not_there r rest h h' w (zero, d, at, inr x) =
          let same : r ≡ d = ground arith in absurd ((rw (same) at h') x)
      not_there r rest h h' w (suc j, d, at, x) = w (j, d, at, x)

  -- A range that is added at the end is found where no other is.
  get_range-added :
      (a : ℕ) (ranges : List (VirtMemoryRange Fs)) (r : VirtMemoryRange Fs)
      → Fits ranges
      → r.base + r.length < 2 ^ 64
      → get_range a ranges ≡ done none
      → Inside a r
      → get_range a (ranges ++ (r ∷ [])) ≡ done (some r)
  unfolding get_range
  get_range-added a [] r fits small e h = rw (inside_yes a r small h) refl
  get_range-added a (d ∷ rest) r fits small e h = elim (inside-cases a d (fits 0 d refl)) [
    | inl (q, w) ↦ absurd (ground (arith, q))
    | inr (q, w) ↦ rw q (get_range-added a rest r (λ j x at. fits (suc j) x at) small (rw q at e) h)
  ]

-- The entry of a page that `mmap` reserves.
abbrev pub reserved : Bitflags → ℕ → ℕ
reserved flags prot = flags.union (page_flags flags prot) PageFlags.mmaped

module _ {Fs : Type 0} (flags : Bitflags) (length prot map_flags : ℕ)
    (fd : Option (FileDescription Fs)) (file_offset : ℕ) (vmm : VirtualMemManager Fs)
    (m : Machine) where
  abbrev fixed : Bool
  fixed = flags.contains map_flags MapFlags.fixed

  abbrev pub new_range : ℕ → VirtMemoryRange Fs
  new_range low = record {
    base = low;
    length = length;
    prot = prot;
    flags = map_flags;
    file_offset = file_offset;
    fd = fd;
  }

  abbrev pages : ℕ → ℕ
  pages low = ceil (low + length - low) page_size

  abbrev map_pages : ℕ → ℕ → Machine → Outcome Machine
  map_pages low n = map_range flags vmm.pagemap (reserved flags prot) low n

  -- The outcomes of `mmap`: a fixed map without an address is ignored; a range is added at its
  -- address and its pages get the reserved entry; a panic since a free range is asked for, since the
  -- range ends at 2^64 or above, or, after some of its pages, since at most two pages of memory are left.
  pub data IsMmap (address : Option ℕ) : Outcome (VirtualMemManager Fs × Machine) → Type 0 where
    ignored : address ≡ none → fixed ≡ true → IsMmap address (done (vmm, m))
    mapped :
        (low : ℕ)
        → address ≡ some low
        → low + length < 2 ^ 64
        → (fixed ≡ true) ⊎ (¬ Meets low (low + length) vmm.ranges)
        → (m' : Machine) (place' : ℕ → Option Place) → IsPaging vmm.pagemap place' m'
        → ((a : ℕ)
            → translate m'.memory vmm.pagemap a ≡ (
                if covers low (ceil length page_size) a
                then reserved flags prot
                else translate m.memory vmm.pagemap a))
        → IsMmap address (done (record vmm { ranges = vmm.ranges ++ (new_range low ∷ []) }, m'))
    no_free_range :
        fixed ≡ false
        → (address ≡ none)
          ⊎ ((low : ℕ) × (address ≡ some low) × Meets low (low + length) vmm.ranges)
        → IsMmap address panic
    wraps : (low : ℕ) → address ≡ some low → 2 ^ 64 ≤ low + length → IsMmap address panic
    no_page :
        (low k : ℕ) (m' : Machine)
        → address ≡ some low
        → k < ceil length page_size
        → map_range flags vmm.pagemap (reserved flags prot) low k m ≡ done m'
        → FewFree 2 m'.pmm
        → IsMmap address panic

  -- The last part of `mmap`, at an address that was chosen.
  abbrev finish : ℕ → Machine → Outcome (VirtualMemManager Fs × Machine)
  finish low m' = done (record vmm { ranges = vmm.ranges ++ (new_range low ∷ []) }, m')

  mapped_at :
      {low : ℕ} {r : Outcome Machine}
      → low + length < 2 ^ 64
      → (fixed ≡ true) ⊎ (¬ Meets low (low + length) vmm.ranges)
      → IsMapped flags vmm.pagemap (reserved flags prot) low (ceil length page_size) m r
      → IsMmap (some low) (r >>= finish low)
  mapped_at {low} small free (IsMapped.mapped m' place' ok all) =
      IsMmap.mapped low refl small free m' place' ok all
  mapped_at {low} small free (IsMapped.no_page k m' lt ran few) =
      IsMmap.no_page low k m' refl lt ran few

  -- Where every range of the manager ends below 2^64 and the tables are well formed, `mmap` has one of
  -- these outcomes.
  pub mmap-IsMmap :
      {place : ℕ → Option Place} (ok : IsPaging vmm.pagemap place m)
      → Fits vmm.ranges
      → (address : Option ℕ)
      → IsMmap address (mmap flags address length prot map_flags fd file_offset vmm m)
  unfolding mmap
  mmap-IsMmap ok fits none = elim (Bool-cases fixed) [
    | inl yes_fixed ↦ rw yes_fixed (IsMmap.ignored refl yes_fixed)
    | inr not_fixed ↦ rw not_fixed (IsMmap.no_free_range not_fixed (inl refl))
  ]
  mmap-IsMmap ok fits (some low) = elim (dec_lt (low + length) (2 ^ 64)) [
    | no big ↦
        let e : ltb (low + length) (2 ^ 64) ≡ false = ground arith in
        rw e (IsMmap.wraps low refl (omega arith))
    | yes small ↦
        let e : ltb (low + length) (2 ^ 64) ≡ true = ground arith in
        let d : low + length - low ≡ length = omega arith in
        let loop =
          map_range-IsMapped flags vmm.pagemap (reserved flags prot) ok low
            (ceil length page_size) in
        elim (Bool-cases fixed) [
          | inl f ↦ rw (e, f, e, d) (mapped_at small (inl f) loop)
          | inr f ↦ elim (meets-cases low (low + length) vmm.ranges fits) [
            | inl (q, w) ↦ rw (e, f, q) (IsMmap.no_free_range f (inr (low, refl, w)))
            | inr (q, w) ↦ rw (e, f, q, e, d) (mapped_at small (inr w) loop)
          ]
        ]
  ]

  -- The pages of the new range hold all of its addresses.
  covered :
      (low a : ℕ)
      → Inside a (new_range low)
      → low % page_size ≡ 0
      → low + ceil length page_size * page_size ≤ 2 ^ 48
      → covers low (ceil length page_size) a ≡ true
  covered low a h aligned high =
      let enough = ceil_bounds length page_size (omega arith) in
      (covers_iff low (ceil length page_size) a aligned high).1 (omega arith, omega arith)

  -- Where the tables are well formed and every range of the manager ends below 2^64: for a range that
  -- was mapped from a page boundary on and whose pages end at 2^48 or below, and for an address strictly
  -- inside it at which no older range was found, the new range is found there afterwards, and the
  -- address has the reserved entry.
  pub get_range-mmap :
      {place : ℕ → Option Place} (ok : IsPaging vmm.pagemap place m)
      → Fits vmm.ranges
      → (low a : ℕ) (vmm' : VirtualMemManager Fs) (m' : Machine)
      → mmap flags (some low) length prot map_flags fd file_offset vmm m ≡ done (vmm', m')
      → Inside a (new_range low)
      → get_range a vmm.ranges ≡ done none
      → low % page_size ≡ 0
      → low + ceil length page_size * page_size ≤ 2 ^ 48
      → (get_range a vmm'.ranges ≡ done (some (new_range low)))
        × (translate m'.memory vmm.pagemap a ≡ reserved flags prot)
  get_range-mmap ok fits low a vmm' m' e h old aligned high = go (mmap-IsMmap ok fits (some low)) e
    where
      go :
          {r : Outcome (VirtualMemManager Fs × Machine)}
          → IsMmap (some low) r
          → r ≡ done (vmm', m')
          → (get_range a vmm'.ranges ≡ done (some (new_range low)))
            × (translate m'.memory vmm.pagemap a ≡ reserved flags prot)
      go (IsMmap.ignored n f) e = absurd (ground arith)
      go (IsMmap.no_free_range f n) e = absurd (ground arith)
      go (IsMmap.wraps l n f) e = absurd (ground arith)
      go (IsMmap.no_page l k m'' n f ran few) e = absurd (ground arith)
      go (IsMmap.mapped l n small free m'' place' paging all) e =
          let same : low ≡ l = ground arith in
          let machines : m'' ≡ m' = cc in
          let added : vmm.ranges ++ (new_range l ∷ []) ≡ vmm'.ranges = cc in
          let ranges : vmm.ranges ++ (new_range low ∷ []) ≡ vmm'.ranges =
            ap (λ (x : ℕ). vmm.ranges ++ (new_range x ∷ [])) same ∙ added in
          (
            rw (← ranges) (
                get_range-added a vmm.ranges (new_range low) fits (omega (arith, same, small)) old
                  h),
            rw (← machines) (all a ∙ rw (← same, covered low a h aligned high) refl),
          )
