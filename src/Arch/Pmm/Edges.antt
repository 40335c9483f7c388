-- ===== src/Arch/Pmm/Edges.antt =====
-- The inputs at the edge of `alloc`: no pages, and a run that starts at the first page.
use griffin.Common.{
  ℕ, zero, suc, ◌+◌, ◌*◌, ◌^◌, ◌≤◌, ◌<◌, ◌≡◌, refl, true, false, none, arith, done, panic, ltb,
  ◌==◌, Bool-cases, inl, inr,
}
use griffin.Utils.Bitmap.Laws.{bit_of, IsValid, is_set_lem}
use griffin.Utils.Bitmap.Scan.{AllBits}
use griffin.Arch.Pmm.{Pmm, claim, alloc_loop, alloc}

alloc_loop_zero :
    {b : Pmm}
    → IsValid b
    → (i left count : ℕ) → i + left ≡ b.size * 8
    → alloc_loop 0 i left count b ≡ done (none, b)
unfolding alloc_loop
alloc_loop_zero ok i zero count e = refl
alloc_loop_zero {b} ok i (suc left) count e =
    rw (is_set_lem ok i (omega arith)) (elim (Bool-cases (bit_of b i)) [
      | inl free_page ↦
          let never : (count + 1 == 0) ≡ false = ground arith in
          rw (free_page, never) (alloc_loop_zero ok (i + 1) left (count + 1) (omega arith))
      | inr used ↦ rw used (alloc_loop_zero ok (i + 1) left 0 (omega arith))
    ])

-- On a valid bitmap of less than 2^64 bits an allocation of zero pages returns nothing and changes
-- nothing, whatever is free.
pub alloc_zero : {b : Pmm} → IsValid b → b.size * 8 < 2 ^ 64 → alloc 0 b ≡ done (none, b)
unfolding alloc
alloc_zero {b} ok fits =
    let small : ltb (b.size * 8) (2 ^ 64) ≡ true = ground arith in
    rw small (alloc_loop_zero ok 0 (b.size * 8) 0 (omega arith))

claim_panics : (pages i : ℕ) (b : Pmm) → i < pages → claim pages i b ≡ panic
unfolding claim
claim_panics pages i b h = ground arith

alloc_loop_panics :
    {b : Pmm} (pages : ℕ)
    → IsValid b
    → AllBits b true 0 pages
    → pages ≤ b.size * 8
    → (i left : ℕ) → i + left ≡ b.size * 8
    → i < pages
    → alloc_loop pages i left i b ≡ panic
unfolding alloc_loop
alloc_loop_panics pages ok all fits i zero e h = absurd (omega arith)
alloc_loop_panics {b} pages ok all fits i (suc left) e h =
    rw (is_set_lem ok i (omega arith), all i (omega arith) h)
      (elim (Bool-cases (i + 1 == pages)) [
        | inl last ↦ rw last (claim_panics pages i b h)
        | inr more ↦
            rw more (alloc_loop_panics pages ok all fits (i + 1) left (omega arith) (ground arith))
      ])

-- On a valid bitmap of less than 2^64 bits whose first `pages` bits say free, for one page or more,
-- `alloc` panics, since `i - pages + 1` underflows.
pub alloc_first_page_panics :
    {b : Pmm} (pages : ℕ)
    → IsValid b
    → b.size * 8 < 2 ^ 64
    → 0 < pages
    → pages ≤ b.size * 8
    → AllBits b true 0 pages
    → alloc pages b ≡ panic
unfolding alloc
alloc_first_page_panics {b} pages ok small pos fits all =
    let no_overflow : ltb (b.size * 8) (2 ^ 64) ≡ true = ground arith in
    rw no_overflow (alloc_loop_panics pages ok all fits 0 (b.size * 8) (omega arith) pos)
