-- ===== src/Mm/Ranges/Pages.antt =====
-- What `mmap`'s loop over the pages of a range does to the page tables.
use griffin.Common.{
  ℕ, zero, suc, ◌+◌, ◌*◌, ◌/◌, ◌%◌, ◌^◌, ◌≤◌, ◌<◌, ◌≡◌, refl, ap, ◌∙◌, Bool, true, false, ◌||◌,
  Option, arith, Outcome, done, panic, ◌>>=◌, ◌==◌, ==_iff, if◌then◌else◌, bit_or, ℕ_discrete, ◌↔◌,
}
use griffin.Bits.Digits.{bit_or_identity_left}
use griffin.Arch.PhysAddr.{page_size}
use griffin.Arch.Pmm.{Machine}
use griffin.Mm.Flags.{Bitflags}
use griffin.Mm.Ranges.{map_range}
use griffin.Mm.Vmm.Tables.{translate, Place, IsPaging, FewFree}
use griffin.Mm.Vmm.Mapping.{page_of}
use griffin.Mm.Vmm.{map_page}
use griffin.Mm.Vmm.MapPage.{IsMap, map_page-IsMap}

-- `a` lies in one of the `n` pages of the addresses `low`, `low + page_size`, ...
pub covers : ℕ → ℕ → ℕ → Bool
covers low zero a = false
covers low (suc n) a = (page_of low == page_of a) || covers (low + page_size) n a

-- The outcomes of the loop: every address in the pages translates to the entry and every other as
-- before; or a panic, after some of the pages, where at most two pages of memory were left.
pub data IsMapped (flags : Bitflags) (pagemap entry low n : ℕ) (m : Machine)
    : Outcome Machine → Type 0 where
  mapped :
      (m' : Machine) (place' : ℕ → Option Place)
      → IsPaging pagemap place' m'
      → ((a : ℕ)
          → translate m'.memory pagemap a
            ≡ (if covers low n a then entry else translate m.memory pagemap a))
      → IsMapped flags pagemap entry low n m (done m')
  no_page :
      (k : ℕ) (m' : Machine)
      → k < n
      → map_range flags pagemap entry low k m ≡ done m'
      → FewFree 2 m'.pmm
      → IsMapped flags pagemap entry low n m panic

module _ (flags : Bitflags) (pagemap entry : ℕ) where
  either :
      (b c : Bool) (x y z : ℕ)
      → z ≡ (if b then x else y)
      → (if c then x else z) ≡ (if b || c then x else y)
  either b c x y z e = ground arith

  -- The first page is mapped and the loop goes on.
  first :
      {low n : ℕ} {m m' : Machine} {r : Outcome Machine}
      → ((a : ℕ)
          → translate m'.memory pagemap a
            ≡ (if page_of low == page_of a then bit_or 0 entry else translate m.memory pagemap a))
      → map_page flags pagemap low 0 entry true m ≡ done m'
      → IsMapped flags pagemap entry (low + page_size) n m' r
      → IsMapped flags pagemap entry low (suc n) m r
  unfolding covers map_range
  first {low} {m} one now (IsMapped.mapped m'' place'' ok all) = IsMapped.mapped m'' place'' ok λ a.
      all a
      ∙ either _ _ entry _ _ (
          one a
          ∙ ap (λ (x : ℕ). if page_of low == page_of a then x else translate m.memory pagemap a)
              (bit_or_identity_left entry))
  first {m'} one now (IsMapped.no_page k m'' lt ran few) =
      IsMapped.no_page (suc k) m'' (omega arith) (rw now ran) few

  pub map_range-IsMapped :
      {place : ℕ → Option Place} {m : Machine} (ok : IsPaging pagemap place m) (low n : ℕ)
      → IsMapped flags pagemap entry low n m (map_range flags pagemap entry low n m)
  unfolding map_range covers
  map_range-IsMapped {place} {m} ok low zero = IsMapped.mapped m place ok (λ a. refl)
  map_range-IsMapped {m} ok low (suc n) =
      go (λ place' m' paging. map_range-IsMapped paging (low + page_size) n)
        (map_page-IsMap flags ok low 0 entry true) refl
    where
      go :
          {r : Outcome Machine}
          → ((place' : ℕ → Option Place) (m' : Machine)
              → IsPaging pagemap place' m'
              → IsMapped flags pagemap entry
                  (low + page_size)
                  n
                  m'
                  (map_range flags pagemap entry (low + page_size) n m'))
          → IsMap flags pagemap m low (bit_or 0 entry) r
          → map_page flags pagemap low 0 entry true m ≡ r
          → IsMapped flags pagemap entry low
              (suc n)
              m
              (r >>= map_range flags pagemap entry (low + page_size) n)
      go later (IsMap.no_page few) e = IsMapped.no_page 0 m (omega arith) refl few
      go later (IsMap.mapped m' place' paging one reads claims) e =
          first one e (later place' m' paging)

-- Where the first address starts a page and the pages end at 2^48 or below, they are the numbers from
-- the page of the first address on.
pub covers_iff :
    (low n a : ℕ)
    → low % page_size ≡ 0
    → low + n * page_size ≤ 2 ^ 48
    → (covers low n a ≡ true) ↔ ((low / page_size ≤ page_of a) × (page_of a < low / page_size + n))
unfolding covers
covers_iff low zero a aligned fits = (λ h. cc, λ (x, y). absurd (omega arith))
covers_iff low (suc n) a aligned fits =
    let here : page_of low ≡ low / page_size = omega arith in
    let rest = covers_iff (low + page_size) n a (omega arith) (omega arith) in
    elim (ℕ_discrete (page_of low) (page_of a)) [
      | yes same ↦
          let hit : (page_of low == page_of a) ≡ true = (==_iff (page_of low) (page_of a)).1 same in
          rw hit (λ h. (omega arith, omega arith), λ h. refl)
      | no other ↦
          let miss : (page_of low == page_of a) ≡ false = ground arith in
          rw miss (
            λ h. (let (x, y) = rest.0 h in (omega arith, omega arith)),
            λ (x, y). rest.1 (omega arith, omega arith),
          )
    ]
