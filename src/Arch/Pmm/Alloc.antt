-- ===== src/Arch/Pmm/Alloc.antt =====
-- `alloc` finds the first run of free pages that is long enough, and takes it.
use griffin.Common.{
  ℕ, zero, suc, ◌+◌, ◌-◌, ◌*◌, ◌^◌, ◌≤◌, ◌<◌, ◌≡◌, refl, ◌≢◌, ◌⊎◌, inl, inr, true, false, Option,
  none, some, arith, Outcome, done, ltb, ◌==◌, if◌then◌else◌, Bool-cases, dec_lt, ==_iff,
}
use griffin.Utils.Bitmap.{clear}
use griffin.Utils.Bitmap.Laws.{bit_of, IsValid, is_set_lem}
use griffin.Utils.Bitmap.Scan.{AllBits}
use griffin.Arch.PhysAddr.{page_size}
use griffin.Arch.Pmm.{Pmm, claim, alloc_loop, alloc, for_bits}
use griffin.Arch.Pmm.Runs.{IsRunWrite, within, clear_run}

-- The allocator's state: a well-formed bitmap over memory below the higher half, in which the first
-- page is in use.
pub record IsPmm (b : Pmm) : Type 0 where
  pub valid : IsValid b
  pub fits : b.size * 8 * page_size ≤ 2 ^ 47
  pub first_used : bit_of b 0 ≡ false

-- `page` starts the first run of `pages` free pages of `b`, and `b'` is `b` without that run.
pub record IsClaim (b : Pmm) (pages page : ℕ) (b' : Pmm) : Type 0 where
  pub run : AllBits b true page (page + pages)
  pub inside : page + pages ≤ b.size * 8
  pub first : (q : ℕ) → q < page → ¬ AllBits b true q (q + pages)
  pub valid : IsValid b'
  pub size : b'.size ≡ b.size
  pub data_ptr : b'.data_ptr ≡ b.data_ptr
  pub bits : (j : ℕ) → bit_of b' j ≡ (if within page pages j then false else bit_of b j)

-- The two outcomes of `alloc`: no run is long enough and nothing changes, or a run is taken.
pub data IsAlloc (b : Pmm) (pages : ℕ) : Outcome (Option ℕ × Pmm) → Type 0 where
  exhausted :
      ((q : ℕ) → q + pages ≤ b.size * 8 → ¬ AllBits b true q (q + pages))
      → IsAlloc b pages (done (none, b))
  found :
      (page : ℕ) (b' : Pmm)
      → IsClaim b pages page b'
      → IsAlloc b pages (done (some (page * page_size), b'))

-- What holds at bit `i` with `count` free pages just behind it.
record IsSearch (b : Pmm) (pages i count : ℕ) : Type 0 where
  short : count < pages
  run : AllBits b true (i - count) i
  edge : ((i ≡ 0) × (count ≡ 0)) ⊎ ((count < i) × (bit_of b (i - count - 1) ≡ false))
  none_before : (q : ℕ) → q + pages ≤ i → ¬ AllBits b true q (q + pages)

module _ {b : Pmm} (ok : IsPmm b) (pages : ℕ) where
  IsSearch-skip :
      {i count : ℕ} → bit_of b i ≡ false → IsSearch b pages i count → IsSearch b pages (i + 1) 0
  IsSearch-skip {i} {count} used s = record {
    short = omega (arith, s.short);
    run = λ j p q. absurd (omega arith);
    edge = inr (omega arith, let e : i + 1 - 0 - 1 ≡ i = omega arith in rw e used);
    none_before = λ q h all. elim (dec_lt i (q + pages)) [
      | yes past ↦ cc (all i (omega (arith, s.short)) past, used)
      | no behind ↦ s.none_before q (omega arith) all
    ];
  }

  -- A set bit lies behind a clear one, since the first page is in use.
  behind_edge :
      {i count : ℕ}
      → bit_of b i ≡ true
      → IsSearch b pages i count
      → (count < i) × (bit_of b (i - count - 1) ≡ false)
  behind_edge set_i s = ground (arith, s.edge, ok.first_used)

  IsSearch-extend :
      {i count : ℕ}
      → bit_of b i ≡ true
      → count + 1 ≢ pages
      → IsSearch b pages i count
      → IsSearch b pages (i + 1) (count + 1)
  IsSearch-extend {i} {count} set_i ne s =
      let (below, clear_edge) = behind_edge set_i s in
      let e : i + 1 - (count + 1) ≡ i - count = omega arith in
      record {
        short = omega (arith, s.short);
        run = λ j p q. elim (dec_lt j i) [
          | yes inner ↦ s.run j (omega arith) inner
          | no last ↦ let here : i ≡ j = omega arith in rw (← here) set_i
        ];
        edge = inr (omega arith, rw e clear_edge);
        none_before = λ q h all. elim (dec_lt i (q + pages)) [
          | yes past ↦ cc (all (i - count - 1) (omega (arith, s.short)) (omega arith), clear_edge)
          | no behind ↦ s.none_before q (omega arith) all
        ];
      }

  claim_lem :
      {i : ℕ}
      → pages ≤ i
      → i < b.size * 8
      → (r : IsRunWrite b (i - pages + 1) pages false (for_bits clear (i - pages + 1) pages b))
      → claim pages i b ≡ done (some ((i - pages + 1) * page_size), r.out)
  unfolding claim
  claim_lem {i} le h r = ground (arith, r.returns, ok.fits)

  claim-IsAlloc :
      {i count : ℕ}
      → bit_of b i ≡ true
      → count + 1 ≡ pages
      → i < b.size * 8
      → IsSearch b pages i count
      → IsAlloc b pages (claim pages i b)
  claim-IsAlloc {i} {count} set_i e h s =
      let (below, clear_edge) = behind_edge set_i s in
      let taken = clear_run ok.valid (i - pages + 1) pages (omega arith) in
      rw (claim_lem (omega arith) h taken) (
        found (i - pages + 1) taken.out (record {
          run = λ j p q. elim (dec_lt j i) [
            | yes inner ↦ s.run j (omega arith) inner
            | no last ↦ let here : i ≡ j = omega arith in rw (← here) set_i
          ];
          inside = omega arith;
          first = λ q p all. s.none_before q (omega arith) all;
          valid = taken.valid;
          size = taken.size;
          data_ptr = taken.data_ptr;
          bits = taken.bits;
        }))

  alloc_loop-IsAlloc :
      (i left count : ℕ)
      → i + left ≡ b.size * 8
      → IsSearch b pages i count
      → IsAlloc b pages (alloc_loop pages i left count b)
  unfolding alloc_loop
  alloc_loop-IsAlloc i zero count e s = exhausted (λ q h. s.none_before q (omega arith))
  alloc_loop-IsAlloc i (suc left) count e s =
      rw (is_set_lem ok.valid i (omega arith)) (elim (Bool-cases (bit_of b i)) [
        | inr used ↦
            rw used (alloc_loop-IsAlloc (i + 1) left 0 (omega arith) (IsSearch-skip used s))
        | inl set_i ↦ elim (Bool-cases (count + 1 == pages)) [
          | inl last ↦
              rw (set_i, last)
                (claim-IsAlloc set_i ((==_iff (count + 1) pages).0 last) (omega arith) s)
          | inr more ↦
              rw (set_i, more)
                (alloc_loop-IsAlloc (i + 1) left (count + 1) (omega arith)
                  (IsSearch-extend set_i (λ q. cc (more, (==_iff (count + 1) pages).1 q)) s))
        ]
      ])

  -- On a well-formed bitmap whose pages all lie below 2^47 and whose first page is in use, and for one
  -- page or more, `alloc` finds the first run of set bits that is long enough, returns its address and
  -- clears those bits alone, or returns nothing and changes nothing where no run is long enough.
  pub alloc-IsAlloc : 0 < pages → IsAlloc b pages (alloc pages b)
  unfolding alloc
  alloc-IsAlloc pos =
      let small : ltb (b.size * 8) (2 ^ 64) ≡ true = ground (arith, ok.fits) in
      rw small (
        alloc_loop-IsAlloc 0 (b.size * 8) 0 (omega arith) (record {
          short = pos;
          run = λ j p q. absurd (omega arith);
          edge = inl (refl, refl);
          none_before = λ q h all. absurd (omega arith);
        }))
