-- ===== src/Mm/Slab/Sizes.antt =====
-- `cache_for` and the sizes of the caches that `init` makes.
use griffin.Common.{
  ℕ, zero, suc, ◌≤◌, ◌<◌, ◌≡◌, refl, Option, none, some, List, [], ◌∷◌, ap, get_elem?, arith, inl,
  inr, Bool-cases, ltb,
}
use griffin.Mm.Slab.{Cache, cache_for}
use mathlib.Core.Option

-- The sizes do not fall along the list.
pub data IsSorted : List Cache → Type 0 where
  nil : IsSorted []
  cons :
      {c : Cache} {cs : List Cache}
      → ((j : ℕ) (d : Cache) → get_elem? cs j ≡ some d → c.object_size ≤ d.object_size)
      → IsSorted cs
      → IsSorted (c ∷ cs)

-- No cache is large enough, or the one at `k` is, and none that is has smaller objects.
pub data IsFit (size : ℕ) (caches : List Cache) : Option ℕ → Type 0 where
  too_large :
      ((j : ℕ) (d : Cache) → get_elem? caches j ≡ some d → d.object_size < size)
      → IsFit size caches none
  best :
      (k : ℕ) (c : Cache)
      → get_elem? caches k ≡ some c
      → size ≤ c.object_size
      → ((j : ℕ) (d : Cache)
          → get_elem? caches j ≡ some d
          → size ≤ d.object_size
          → c.object_size ≤ d.object_size)
      → IsFit size caches (some k)

-- On caches in order of size `cache_for` finds one with the smallest objects that are large enough,
-- or nothing where all are too small.
pub cache_for-IsFit :
    (size : ℕ) (caches : List Cache) → IsSorted caches → IsFit size caches (cache_for size caches)
unfolding cache_for
cache_for-IsFit size [] sorted = too_large λ j d e. absurd (ground arith)
cache_for-IsFit size (c ∷ cs) (cons below sorted) = elim (Bool-cases (ltb c.object_size size)) [
  | inl small ↦ rw small (skip (ground (arith, small)) (cache_for-IsFit size cs sorted))
  | inr large ↦
      let enough : size ≤ c.object_size = ground (arith, large) in
      rw large (best 0 c refl enough λ j d e h. first j d e)
]
  where
    first : (j : ℕ) (d : Cache) → get_elem? (c ∷ cs) j ≡ some d → c.object_size ≤ d.object_size
    first zero d e = let same : c ≡ d = ground arith in rw same (omega arith)
    first (suc j) d e = below j d e

    all_small :
        c.object_size < size
        → ((j : ℕ) (d : Cache) → get_elem? cs j ≡ some d → d.object_size < size)
        → (j : ℕ) (d : Cache) → get_elem? (c ∷ cs) j ≡ some d
        → d.object_size < size
    all_small h rest zero d e = let same : c ≡ d = ground arith in rw (← same) h
    all_small h rest (suc j) d e = rest j d e

    still_best :
        (b : Cache)
        → c.object_size < size
        → ((j : ℕ) (d : Cache)
            → get_elem? cs j ≡ some d
            → size ≤ d.object_size
            → b.object_size ≤ d.object_size)
        → (j : ℕ) (d : Cache) → get_elem? (c ∷ cs) j ≡ some d
        → size ≤ d.object_size
        → b.object_size ≤ d.object_size
    still_best b h rest zero d e large =
        let same : c ≡ d = ground arith in absurd (omega (arith, ap (λ t. t.object_size) same))
    still_best b h rest (suc j) d e large = rest j d e large

    skip :
        {r : Option ℕ}
        → c.object_size < size
        → IsFit size cs r
        → IsFit size (c ∷ cs) (Option.map suc r)
    skip h (too_large all) = too_large (all_small h all)
    skip h (best k b at enough least) = best (suc k) b at enough (still_best b h least)
