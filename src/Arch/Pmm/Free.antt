-- ===== src/Arch/Pmm/Free.antt =====
-- `free` gives pages back; what it does after `alloc`, and how successive allocations lie.
use griffin.Common.{
  ℕ, ◌+◌, ◌*◌, ◌/◌, ◌≤◌, ◌<◌, max, ◌≡◌, ◌⊎◌, inl, inr, sym, true, Option, some, arith, Outcome,
  done, dec_lt,
}
use griffin.Utils.Bitmap.Laws.{bit_of}
use griffin.Arch.PhysAddr.{page_size, higher_half, lower_half}
use griffin.Arch.PhysAddr.Laws.{lower_half-higher_half}
use griffin.Arch.Pmm.{Pmm, alloc, free}
use griffin.Arch.Pmm.Runs.{IsRunWrite, set_run}
use griffin.Arch.Pmm.Alloc.{IsPmm, IsClaim, IsAlloc, exhausted, found, alloc-IsAlloc}

module _ {b : Pmm} {pages : ℕ} where
  -- What an allocation that returned `addr` says of its result.
  pub IsClaim-of_some :
      {r : Outcome (Option ℕ × Pmm)} {addr : ℕ} {b' : Pmm}
      → IsAlloc b pages r
      → r ≡ done (some addr, b')
      → (page : ℕ) × (addr ≡ page * page_size) × IsClaim b pages page b'
  IsClaim-of_some (exhausted no_run) e = cc
  IsClaim-of_some {addr} {b'} (found page b1 c) e =
      let same_addr : page * page_size ≡ addr = cc in
      let same_b : b1 ≡ b' = cc in (page, sym same_addr, rw (← same_b) c)

  pub IsClaim-IsPmm : {page : ℕ} {b' : Pmm} → IsPmm b → IsClaim b pages page b' → IsPmm b'
  IsClaim-IsPmm ok c = record {
    valid = c.valid;
    fits = omega (arith, c.size, ok.fits);
    first_used = ground (arith, c.bits 0, ok.first_used);
  }

-- `free` sets the bits of the pages, whichever half of the address space the pointer is in.
pub free_lem :
    {b : Pmm}
    → IsPmm b
    → (page n : ℕ) → page + n ≤ b.size * 8
    → 0 < n
    → IsRunWrite b page n true (free (higher_half (page * page_size)) n b)
unfolding free
free_lem {b} ok page n h pos =
    let e : lower_half (higher_half (page * page_size)) ≡ page * page_size =
      lower_half-higher_half (page * page_size) (omega (arith, ok.fits)) in
    let d : page * page_size / page_size ≡ page = omega arith in
    rw (e, d) (set_run ok.valid page n h)

pub free_claim :
    {b b' : Pmm} {pages page : ℕ}
    → IsPmm b
    → IsClaim b pages page b'
    → 0 < pages
    → (b'' : Pmm) × (free (higher_half (page * page_size)) pages b' ≡ done b'')
      × ((j : ℕ) → bit_of b'' j ≡ bit_of b j)
free_claim {pages} {page} ok c pos =
    let freed = free_lem (IsClaim-IsPmm ok c) page pages (omega (arith, c.inside, c.size)) pos in
    (freed.out, freed.returns, λ j. ground (arith, freed.bits j, c.bits j, c.run j))

-- Freeing the address that `alloc` returned for one page or more, through the higher half, brings
-- back every bit of the bitmap.
pub free-alloc :
    {b b' : Pmm} (pages addr : ℕ)
    → IsPmm b
    → 0 < pages
    → alloc pages b ≡ done (some addr, b')
    → (b'' : Pmm) × (free (higher_half addr) pages b' ≡ done b'')
      × ((j : ℕ) → bit_of b'' j ≡ bit_of b j)
free-alloc {b} {b'} pages addr ok pos e =
    let (page, at, c) = IsClaim-of_some (alloc-IsAlloc ok pages pos) e in
    rw at (free_claim ok c pos)

-- Two allocations in a row, each of one page or more, never share a page.
pub alloc-alloc_disjoint :
    {b b1 b2 : Pmm} (m n addr1 addr2 : ℕ)
    → IsPmm b
    → 0 < m
    → 0 < n
    → alloc m b ≡ done (some addr1, b1)
    → alloc n b1 ≡ done (some addr2, b2)
    → (addr1 + m * page_size ≤ addr2) ⊎ (addr2 + n * page_size ≤ addr1)
alloc-alloc_disjoint {b} {b1} m n addr1 addr2 ok hm hn e1 e2 =
    let (p, at1, c1) = IsClaim-of_some (alloc-IsAlloc ok m hm) e1 in
    let (q, at2, c2) = IsClaim-of_some (alloc-IsAlloc (IsClaim-IsPmm ok c1) n hn) e2 in
    elim (dec_lt q (p + m)) [
      | no after ↦ inl (omega arith)
      | yes below ↦ elim (dec_lt p (q + n)) [
        | no before ↦ inr (omega arith)
        | yes overlap ↦ absurd (ground (arith, c2.run (max p q), c1.bits (max p q)))
      ]
    ]
