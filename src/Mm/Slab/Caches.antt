-- ===== src/Mm/Slab/Caches.antt =====
-- One cache: `alloc_obj` serves from the first slab that is not full, and `free_obj` finds the slab of
-- a pointer again.
use griffin.Common.{
  ℕ, ◌+◌, ◌*◌, ◌^◌, ◌≤◌, ◌<◌, ◌≡◌, ◌≢◌, ◌⊎◌, inl, inr, refl, true, false, Option, some, List, [],
  ◌∷◌, length, arith, Outcome, done, panic, ◌>>=◌, Bool-cases, ltb, leb, ◌==◌,
}
use griffin.Utils.Bitmap.Laws.{bit_of}
use griffin.Arch.PhysAddr.{page_size}
use griffin.Mm.Slab.{
  Slab, Cache, objs_per_slab, slab_alloc, alloc_from, alloc_obj, in_slab, free_from, free_obj,
}
use griffin.Mm.Slab.Objects.{IsSlab, IsTaken, slab_alloc-IsTaken, slab_dealloc-slab_alloc}
use native.Mathlib.Nat.{mul-lt-mul_of_pos_right}

-- No object is free.
pub data AllFull : List Slab → Type 0 where
  no_slab : AllFull []
  one_full : {s : Slab} {rest : List Slab} → s.free_objs ≡ 0 → AllFull rest → AllFull (s ∷ rest)

-- The memory of `s` meets that of none of the slabs.
pub data Apart (pages : ℕ) (s : Slab) : List Slab → Type 0 where
  alone : Apart pages s []
  apart :
      {t : Slab} {rest : List Slab}
      → (s.objects + pages * page_size ≤ t.objects) ⊎ (t.objects + pages * page_size ≤ s.objects)
      → Apart pages s rest
      → Apart pages s (t ∷ rest)

pub data IsSlabs (pages : ℕ) : List Slab → Type 0 where
  nil : IsSlabs pages []
  cons :
      {s : Slab} {rest : List Slab}
      → IsSlab s
      → objs_per_slab * s.object_size ≤ pages * page_size
      → s.objects + pages * page_size < 2 ^ 64
      → Apart pages s rest
      → IsSlabs pages rest
      → IsSlabs pages (s ∷ rest)

-- The first slab that is not full gives `ptr`, and the others stay.
pub data IsServed : List Slab → ℕ → List Slab → Type 0 where
  here :
      {s s' : Slab} {rest : List Slab} {ptr : ℕ}
      → s.free_objs ≢ 0
      → slab_alloc s ≡ done (some ptr, s')
      → s.objects ≤ ptr
      → ptr < s.objects + objs_per_slab * s.object_size
      → s'.objects ≡ s.objects
      → IsServed (s ∷ rest) ptr (s' ∷ rest)
  later :
      {s : Slab} {rest rest' : List Slab} {ptr : ℕ}
      → s.free_objs ≡ 0
      → IsServed rest ptr rest'
      → IsServed (s ∷ rest) ptr (s ∷ rest')

pub data IsAllocFrom (slabs : List Slab) : Outcome (Option ℕ × List Slab) → Type 0 where
  exhausted : AllFull slabs → IsAllocFrom slabs panic
  served :
      (ptr : ℕ) (slabs' : List Slab)
      → IsServed slabs ptr slabs'
      → IsAllocFrom slabs (done (some ptr, slabs'))

alloc_from-IsAllocFrom :
    {pages : ℕ} (slabs : List Slab) → IsSlabs pages slabs → IsAllocFrom slabs (alloc_from slabs)
unfolding alloc_from
alloc_from-IsAllocFrom [] ok = exhausted no_slab
alloc_from-IsAllocFrom {pages} (s ∷ rest) (cons ok big fits free all) =
    elim (Bool-cases (s.free_objs == 0)) [
      | inl is_full ↦ rw is_full (skip (ground (arith, is_full)) (alloc_from-IsAllocFrom rest all))
      | inr some_left ↦
          rw some_left (take (ground (arith, some_left)) refl (slab_alloc-IsTaken s ok))
    ]
  where
    skip :
        {r : Outcome (Option ℕ × List Slab)}
        → s.free_objs ≡ 0
        → IsAllocFrom rest r
        → IsAllocFrom (s ∷ rest) (r >>= λ (ptr, rest'). done (ptr, s ∷ rest'))
    skip z (exhausted all_full) = exhausted (one_full z all_full)
    skip z (served ptr rest' t) = served ptr (s ∷ rest') (later z t)

    take :
        {r : Outcome (Option ℕ × Slab)}
        → s.free_objs ≢ 0
        → slab_alloc s ≡ r
        → IsTaken s r
        → IsAllocFrom (s ∷ rest) (r >>= λ (ptr, s'). done (ptr, s' ∷ rest))
    take nz e (IsTaken.full z full_bits) = absurd (nz z)
    take nz e (IsTaken.taken i s' h unset ok' at size count bits) =
        served (s.objects + i * s.object_size) (s' ∷ rest)
          (here nz e (omega arith) (omega (arith, mul-lt-mul_of_pos_right h ok.sized)) at)

-- The same objects are free in both.
pub data SameSlabs : List Slab → List Slab → Type 0 where
  both_empty : SameSlabs [] []
  both :
      {s t : Slab} {ss ts : List Slab}
      → t.free_objs ≡ s.free_objs
      → ((j : ℕ) → bit_of t.bitmap j ≡ bit_of s.bitmap j)
      → SameSlabs ss ts
      → SameSlabs (s ∷ ss) (t ∷ ts)

SameSlabs-refl : (slabs : List Slab) → SameSlabs slabs slabs
SameSlabs-refl [] = both_empty
SameSlabs-refl (s ∷ rest) = both refl (λ j. refl) (SameSlabs-refl rest)

in_slab-inside :
    (pages : ℕ) (s : Slab) (ptr : ℕ)
    → s.objects + pages * page_size < 2 ^ 64
    → s.objects ≤ ptr
    → ptr < s.objects + pages * page_size
    → in_slab ptr pages s ≡ done true
unfolding in_slab
in_slab-inside pages s ptr fits lo hi =
    let p : leb s.objects ptr ≡ true = ground arith in
    let q : ltb (pages * page_size) (2 ^ 64) ≡ true = ground arith in
    let r : ltb (s.objects + pages * page_size) (2 ^ 64) ≡ true = ground arith in
    let t : ltb ptr (s.objects + pages * page_size) ≡ true = ground arith in rw (p, q, r, t) refl

in_slab-outside :
    (pages : ℕ) (s : Slab) (ptr : ℕ)
    → s.objects + pages * page_size < 2 ^ 64
    → (ptr < s.objects) ⊎ (s.objects + pages * page_size ≤ ptr)
    → in_slab ptr pages s ≡ done false
unfolding in_slab
in_slab-outside pages s ptr fits (inl below) =
    let p : leb s.objects ptr ≡ false = ground arith in rw p refl
in_slab-outside pages s ptr fits (inr above) =
    let p : leb s.objects ptr ≡ true = ground arith in
    let q : ltb (pages * page_size) (2 ^ 64) ≡ true = ground arith in
    let r : ltb (s.objects + pages * page_size) (2 ^ 64) ≡ true = ground arith in
    let t : ltb ptr (s.objects + pages * page_size) ≡ false = ground arith in rw (p, q, r, t) refl

served_outside :
    (pages : ℕ) (s : Slab) {slabs slabs' : List Slab} {ptr : ℕ}
    → IsSlabs pages slabs
    → Apart pages s slabs
    → IsServed slabs ptr slabs'
    → (ptr < s.objects) ⊎ (s.objects + pages * page_size ≤ ptr)
served_outside pages s nil a t = elim t [ ]
served_outside pages s (cons ok big fits a all) (apart (inl before) rest) (here nz e lo hi at) =
    inr (omega arith)
served_outside pages s (cons ok big fits a all) (apart (inr behind) rest) (here nz e lo hi at) =
    inl (omega arith)
served_outside pages s (cons ok big fits a all) (apart sides rest) (later z t) =
    served_outside pages s all rest t

free_from_lem :
    (pages : ℕ) {slabs slabs' : List Slab} {ptr : ℕ}
    → IsSlabs pages slabs
    → IsServed slabs ptr slabs'
    → (slabs'' : List Slab) × (free_from ptr pages (length slabs) slabs' ≡ done slabs'')
      × SameSlabs slabs slabs''
unfolding free_from
free_from_lem pages nil t = elim t [ ]
free_from_lem pages (cons {s} {rest} ok big fits a all) (here {s'} {ptr} nz e lo hi at) =
    let (s'', freed, ok'', count, bits) = slab_dealloc-slab_alloc s s' ptr ok e in
    let found : in_slab ptr pages s' ≡ done true =
      in_slab-inside pages s' ptr (rw at fits) (rw at lo) (omega (arith, at)) in
    (s'' ∷ rest, rw (found, freed) refl, both count bits (SameSlabs-refl rest))
free_from_lem pages (cons {s} {rest} ok big fits a all) (later {ptr} z t) =
    let (rest'', freed, same) = free_from_lem pages all t in
    let missed = in_slab-outside pages s ptr fits (served_outside pages s all a t) in
    (s ∷ rest'', rw (missed, freed) refl, both refl (λ j. refl) same)

-- The memory of a cache's slabs is apart and holds their objects, and the count is right.
pub record IsCache (c : Cache) : Type 0 where
  pub good : IsSlabs c.pages_per_slab c.slabs
  pub count : c.slab_count ≡ length c.slabs

-- The two outcomes of `alloc_obj`.
pub data IsAllocObj (c : Cache) : Outcome (Option ℕ × Cache) → Type 0 where
  exhausted : AllFull c.slabs → IsAllocObj c panic
  served :
      (ptr : ℕ) (slabs' : List Slab)
      → IsServed c.slabs ptr slabs'
      → IsAllocObj c (done (some ptr, record c { slabs = slabs' }))

-- On a well-formed cache `alloc_obj` returns an object of the first slab that is not full, or it
-- panics, and then no slab has a free object.
pub alloc_obj-IsAllocObj : (c : Cache) → IsCache c → IsAllocObj c (alloc_obj c)
unfolding alloc_obj
alloc_obj-IsAllocObj c ok = go (alloc_from-IsAllocFrom c.slabs ok.good)
  where
    go :
        {r : Outcome (Option ℕ × List Slab)}
        → IsAllocFrom c.slabs r
        → IsAllocObj c (r >>= λ (ptr, slabs). done (ptr, record c { slabs = slabs }))
    go (IsAllocFrom.exhausted all) = IsAllocObj.exhausted all
    go (IsAllocFrom.served ptr slabs' t) = IsAllocObj.served ptr slabs' t

give_back :
    (c : Cache) (ptr : ℕ) (slabs' : List Slab)
    → IsCache c
    → IsServed c.slabs ptr slabs'
    → (c'' : Cache) × (free_obj ptr (record c { slabs = slabs' }) ≡ done c'')
      × SameSlabs c.slabs c''.slabs
unfolding free_obj
give_back c ptr slabs' ok t =
    let (slabs'', freed, same) = free_from_lem c.pages_per_slab ok.good t in
    (record c { slabs = slabs'' }, rw (ok.count, freed) refl, same)

-- Whatever a well-formed cache's `alloc_obj` returned, `free_obj` takes back: the same objects are
-- free as before.
pub free_obj-alloc_obj :
    (c c' : Cache) (ptr : ℕ)
    → IsCache c
    → alloc_obj c ≡ done (some ptr, c')
    → (c'' : Cache) × (free_obj ptr c' ≡ done c'') × SameSlabs c.slabs c''.slabs
free_obj-alloc_obj c c' ptr ok e = go (alloc_obj-IsAllocObj c ok) e
  where
    go :
        {r : Outcome (Option ℕ × Cache)}
        → IsAllocObj c r
        → r ≡ done (some ptr, c')
        → (c'' : Cache) × (free_obj ptr c' ≡ done c'') × SameSlabs c.slabs c''.slabs
    go (IsAllocObj.exhausted all) e = absurd (ground arith)
    go (IsAllocObj.served p slabs' t) e =
        let same_ptr : p ≡ ptr = ground arith in
        let same_cache : record c { slabs = slabs' } ≡ c' = ground arith in
        rw (← same_cache) (give_back c ptr slabs' ok (rw (← same_ptr) t))

alloc_from_full : {slabs : List Slab} → AllFull slabs → alloc_from slabs ≡ panic
unfolding alloc_from
alloc_from_full no_slab = refl
alloc_from_full (one_full z rest) = rw (z, alloc_from_full rest) refl

-- Where no slab of a cache has a free object, `alloc_obj` follows the null pointer behind the last
-- slab: the branch that adds a slab is not reached.
pub alloc_obj-full : (c : Cache) → AllFull c.slabs → alloc_obj c ≡ panic
unfolding alloc_obj
alloc_obj-full c all = rw (alloc_from_full all) refl
