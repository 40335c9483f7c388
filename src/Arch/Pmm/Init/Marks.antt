-- ===== src/Arch/Pmm/Init/Marks.antt =====
-- What the loops of `init` compute on a memory map, in the terms of the code.
use griffin.Common.{
  ℕ, ◌+◌, ◌*◌, ◌/◌, ◌^◌, ◌≤◌, ◌<◌, max, ◌≡◌, refl, ap, ◌∙◌, Bool, true, false, not, ◌&&◌, ◌||◌,
  some, List, [], ◌∷◌, arith, Outcome, done, ltb, if◌then◌else◌, inl, inr, Bool-cases,
}
use griffin.Utils.Math.Laws.{ceil, div_ceil-done, ceil_bounds}
use griffin.Utils.Bitmap.{set}
use griffin.Utils.Bitmap.Laws.{
  bit_of, IsValid, zeros, zeros-IsValid, bit_of-zeros, from_raw_ptr-zeros,
}
use griffin.Arch.PhysAddr.{page_size, phys_base}
use griffin.Arch.Pmm.{Pmm, for_bits}
use griffin.Arch.Pmm.Runs.{within, IsRunWrite, set_run}
use griffin.Arch.Pmm.Init.{
  MemoryEntry, is_usable, is_memory, raise, find_biggest, shrink, reserve, mark, init,
}

-- The end of memory, as `find_biggest` means it.
abbrev pub top : List MemoryEntry → ℕ
top [] = 0
top (e ∷ es) = max (if is_memory e.entry_type then e.base + e.length else 0) (top es)

-- The end of the usable regions.
abbrev usable_end : List MemoryEntry → ℕ
usable_end [] = 0
usable_end (e ∷ es) = max (if is_usable e.entry_type then e.base + e.length else 0) (usable_end es)

-- Some usable region has page `j` among those that `mark` frees for it.
abbrev pub covered : List MemoryEntry → ℕ → Bool
covered [] j = false
covered (e ∷ es) j =
    (is_usable e.entry_type && within (e.base / page_size) (e.length / page_size) j) || covered es j

-- Some usable region has room for `n` bytes.
abbrev pub has_room : ℕ → List MemoryEntry → Bool
has_room n [] = false
has_room n (e ∷ es) = (is_usable e.entry_type && not (ltb e.length n)) || has_room n es

raise_lem :
    (e : MemoryEntry) (acc : ℕ)
    → (if is_memory e.entry_type then e.base + e.length else 0) < 2 ^ 64
    → raise e acc ≡ done (max acc (if is_memory e.entry_type then e.base + e.length else 0))
unfolding raise
raise_lem e acc h = ground arith

find_biggest_lem :
    (es : List MemoryEntry) (acc : ℕ)
    → top es < 2 ^ 64
    → find_biggest es acc ≡ done (max acc (top es))
unfolding find_biggest
find_biggest_lem [] acc h = ap done (omega arith)
find_biggest_lem (e ∷ es) acc h =
    rw (raise_lem e acc (omega arith)) (find_biggest_lem es _ (omega arith) ∙ ap done (omega arith))

usable_end-le-top : (es : List MemoryEntry) → usable_end es ≤ top es
usable_end-le-top [] = omega arith
usable_end-le-top (e ∷ es) = ground (arith, usable_end-le-top es)

-- `reserve` found a region at `base`, and `es'` is what is left of the map.
record IsReserve (n : ℕ) (es : List MemoryEntry) (base : ℕ) (es' : List MemoryEntry) : Type 0 where
  returns : reserve n es ≡ some (base, es')
  end : usable_end es' ≤ usable_end es
  room : base + n ≤ usable_end es

reserve_lem :
    (n : ℕ) (es : List MemoryEntry)
    → has_room n es ≡ true
    → (base : ℕ) × (es' : List MemoryEntry) × IsReserve n es base es'
unfolding reserve
reserve_lem n [] h = cc
reserve_lem n (e ∷ es) h = elim (Bool-cases (is_usable e.entry_type && not (ltb e.length n))) [
  | inl here ↦ (
    e.base,
    shrink n e ∷ es,
    record { returns = rw here; end = ground arith; room = ground arith },
  )
  | inr later ↦
      let (base, es', r) = reserve_lem n es (ground (arith, later)) in
      (
        base,
        e ∷ es',
        record {
          returns = rw (later, r.returns);
          end = omega (arith, r.end);
          room = omega (arith, r.room);
        },
      )
]

-- `result` is a normal return whose bitmap has, besides the bits of `b`, those that `es` covers.
record IsMark (es : List MemoryEntry) (b : Pmm) (result : Outcome Pmm) : Type 0 where
  out : Pmm
  returns : result ≡ done out
  valid : IsValid out
  size : out.size ≡ b.size
  data_ptr : out.data_ptr ≡ b.data_ptr
  bits : (j : ℕ) → bit_of out j ≡ (covered es j || bit_of b j)

module _ {e : MemoryEntry} {es : List MemoryEntry} {b : Pmm} where
  IsMark-skip :
      is_usable e.entry_type ≡ false → IsMark es b (mark es b) → IsMark (e ∷ es) b (mark (e ∷ es) b)
  unfolding mark
  IsMark-skip no_use rest = record {
    out = rest.out;
    returns = rw no_use rest.returns;
    valid = rest.valid;
    size = rest.size;
    data_ptr = rest.data_ptr;
    bits = λ j. rw no_use (rest.bits j);
  }

  IsMark-use :
      is_usable e.entry_type ≡ true
      → (first : IsRunWrite b
          (e.base / page_size)
          (e.length / page_size)
          true
          (for_bits set (e.base / page_size) (e.length / page_size) b))
      → IsMark es first.out (mark es first.out)
      → IsMark (e ∷ es) b (mark (e ∷ es) b)
  unfolding mark
  IsMark-use use_it first rest = record {
    out = rest.out;
    returns = rw (use_it, first.returns) rest.returns;
    valid = rest.valid;
    size = rest.size ∙ first.size;
    data_ptr = rest.data_ptr ∙ first.data_ptr;
    bits = λ j. ground (arith, use_it, rest.bits j, first.bits j);
  }

mark-IsMark :
    (es : List MemoryEntry) (b : Pmm)
    → IsValid b
    → usable_end es / page_size ≤ b.size * 8
    → IsMark es b (mark es b)
unfolding mark
mark-IsMark [] b ok h = record {
  out = b;
  returns = refl;
  valid = ok;
  size = refl;
  data_ptr = refl;
  bits = λ j. refl;
}
mark-IsMark (e ∷ es) b ok h = elim (Bool-cases (is_usable e.entry_type)) [
  | inr no_use ↦ IsMark-skip no_use (mark-IsMark es b ok (omega arith))
  | inl use_it ↦
      let first = set_run ok (e.base / page_size) (e.length / page_size) (ground (arith, use_it)) in
      IsMark-use use_it first (mark-IsMark es first.out first.valid (omega (arith, first.size)))
]

-- What `init` makes of the memory map `entries`.
pub record IsBuilt (entries : List MemoryEntry) (result : Outcome (Pmm × List MemoryEntry))
    : Type 0 where
  pub pmm : Pmm
  pub rest : List MemoryEntry
  pub returns : result ≡ done (pmm, rest)
  pub valid : IsValid pmm
  pub size : pmm.size ≡ ceil (top entries / page_size) 8
  pub reserved :
      (base : ℕ) × (reserve pmm.size entries ≡ some (base, rest))
      × (pmm.data_ptr ≡ base + phys_base)
  pub bits : (j : ℕ) → bit_of pmm j ≡ covered rest j

init_lem :
    {entries rest : List MemoryEntry} {base : ℕ}
    → top entries < 2 ^ 47
    → IsReserve (ceil (top entries / page_size) 8) entries base rest
    → (m : IsMark rest
        (zeros (base + phys_base) (ceil (top entries / page_size) 8))
        (mark rest (zeros (base + phys_base) (ceil (top entries / page_size) 8))))
    → init entries ≡ done (m.out, rest)
unfolding init
init_lem {entries} {base} fits r m =
    let biggest : max 0 (top entries) ≡ top entries = omega arith in
    let no_wrap : ltb (base + phys_base) (2 ^ 64) ≡ true =
      ground (arith, r.room, usable_end-le-top entries) in
    rw
      (
        find_biggest_lem entries 0 (omega arith),
        biggest,
        div_ceil-done (top entries / page_size) 8 (omega arith) (omega arith),
        r.returns,
        no_wrap,
        from_raw_ptr-zeros,
        m.returns,
      )
      refl

-- If memory ends below the higher half and a usable region has room for the bitmap, `init` returns.
pub init-IsBuilt :
    (entries : List MemoryEntry)
    → top entries < 2 ^ 47
    → has_room (ceil (top entries / page_size) 8) entries ≡ true
    → IsBuilt entries (init entries)
init-IsBuilt entries fits room =
    let n = ceil (top entries / page_size) 8 in
    let (base, rest, r) = reserve_lem n entries room in
    let m = mark-IsMark rest (zeros (base + phys_base) n) (zeros-IsValid (base + phys_base) n) (
      omega (
        arith,
        r.end,
        usable_end-le-top entries,
        ceil_bounds (top entries / page_size) 8 (omega arith),
      )) in
    from_parts fits r m
  where
    from_parts :
        {rest : List MemoryEntry} {base : ℕ}
        → top entries < 2 ^ 47
        → IsReserve (ceil (top entries / page_size) 8) entries base rest
        → IsMark rest
            (zeros (base + phys_base) (ceil (top entries / page_size) 8))
            (mark rest (zeros (base + phys_base) (ceil (top entries / page_size) 8)))
        → IsBuilt entries (init entries)
    from_parts {rest} {base} low r m = record {
      pmm = m.out;
      rest = rest;
      returns = init_lem low r m;
      valid = m.valid;
      size = m.size;
      reserved = (base, rw m.size r.returns, m.data_ptr);
      bits = λ j.
          ground
            (arith, m.bits j, bit_of-zeros (base + phys_base) (ceil (top entries / page_size) 8) j);
    }
