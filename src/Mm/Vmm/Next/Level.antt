-- ===== src/Mm/Vmm/Next/Level.antt =====
-- Both cases of `get_next_level`.
use griffin.Common.{
  ℕ, ◌+◌, ◌*◌, ◌^◌, ◌≤◌, ◌<◌, ◌≡◌, refl, ◌≢◌, bit_and, bit_or, true, Option, some, [], length,
  arith, Outcome, done, ◌>>=◌, expect, ◌==◌, inl, inr, Bool-cases, ==_iff, dec_lt,
}
use griffin.Utils.Bitmap.Laws.{IsValid, bit_of-beyond}
use griffin.Utils.Bitmap.Scan.{AllBits}
use griffin.Arch.PhysAddr.{page_size, remove_flags}
use griffin.Arch.Pmm.{Pmm, Machine, calloc, calloc_result, zero_pages}
use griffin.Arch.Pmm.Alloc.{IsAlloc, exhausted, found, alloc-IsAlloc}
use griffin.Arch.Memory.{offset, write_word, load-slot_high, store-slot_high}
use griffin.Mm.Flags.{Bitflags}
use griffin.Mm.Flags.PageFlags
use griffin.Mm.Vmm.{table_flags, link, get_next_level}
use griffin.Mm.Vmm.Tables.{Place, IsPaging, FewFree, target_present}
use griffin.Mm.Vmm.Next.{IsStep, IsNext, next, no_page}
use griffin.Mm.Vmm.Next.Fresh.{new_IsStep}

-- `PRESENT | WRITABLE | USERMODE` is 7.
table_flags_lem : (flags : Bitflags) → table_flags flags ≡ 7
table_flags_lem flags =
    rw
      (
        flags.union_lem (flags.union PageFlags.present PageFlags.writable) PageFlags.usermode,
        flags.union_lem PageFlags.present PageFlags.writable,
      )
      refl

-- Where no run of one page is free, no page is.
pub FewFree-none :
    {b : Pmm}
    → IsValid b
    → ((q : ℕ) → q + 1 ≤ b.size * 8 → ¬ AllBits b true q (q + 1))
    → FewFree 0 b
FewFree-none {b} ok no_run = (
  [],
  omega arith,
  λ j h. absurd (elim (dec_lt j (b.size * 8)) [
    | yes inside ↦ no_run j (omega arith) (λ i p q. let e : j ≡ i = omega arith in rw (← e) h)
    | no outside ↦ cc (bit_of-beyond ok j (omega arith), h)
  ]),
)

module _ (flags : Bitflags) {pagemap : ℕ} {place : ℕ → Option Place} {m : Machine}
    (ok : IsPaging pagemap place m) {curr index : ℕ} {π : Place} (at : place curr ≡ some π)
    (short : length π < 3) (small : index < 512) where
  slot_low : offset curr index < 2 ^ 47
  slot_low = omega (arith, ok.low curr π at)

  link_lem :
      (entry : ℕ) (m' : Machine)
      → link flags curr index entry m'
        ≡ (entry, record m' { memory = write_word (offset curr index) (bit_or entry 7) m'.memory })
  unfolding link
  link_lem entry m' =
      rw
        (
          store-slot_high curr index slot_low m' (bit_or entry (table_flags flags)),
          table_flags_lem flags,
        )
        refl

  absent_IsNext :
      bit_and (m.memory (offset curr index)) 1 ≡ 0
      → IsNext pagemap place m curr index π
          (calloc 1 m >>= λ (page, m'). expect page >>= λ new. done (link flags curr index new m'))
  unfolding calloc
  absent_IsNext absent = go (alloc-IsAlloc ok.pmm 1 (omega arith))
    where
      go :
          {r : Outcome (Option ℕ × Pmm)}
          → IsAlloc m.pmm 1 r
          → IsNext pagemap place m curr index π (
              (r >>= λ p. done (calloc_result 1 m.memory p)) >>= λ (page, m').
              expect page >>= λ new. done (link flags curr index new m'))
      go (exhausted no_run) = no_page (FewFree-none ok.pmm.valid no_run)
      go (found page b' c) =
          rw
            (link_lem (page * page_size)
              (record { pmm = b'; memory = zero_pages (page * page_size) 1 m.memory }))
            (next _ _ _ (new_IsStep ok at short small absent c))

  present_IsStep :
      bit_and (m.memory (offset curr index)) 1 ≢ 0
      → IsStep pagemap place m curr index π (remove_flags (m.memory (offset curr index))) m place
  present_IsStep there = record {
    paging = ok;
    at = ok.linked curr index π at short small there;
    now = target_present (m.memory (offset curr index)) there;
    grows = λ a σ e. e;
    links = λ a i b σ e hi h. h;
    keeps = λ a σ is last e depth hs hl. refl;
    claims = λ j h. h;
    spent = λ k (l, few, all). (l, omega arith, all);
  }

  -- At an entry of a table above the last level, `get_next_level` returns the table below with its
  -- entry linked and every other translation kept, in a state of well-formed tables that took at most
  -- one page, or it panics where no page is free.
  pub get_next_level-IsNext :
      IsNext pagemap place m curr index π (get_next_level flags curr index m)
  unfolding get_next_level
  get_next_level-IsNext =
      rw (load-slot_high curr index slot_low m)
        (elim (Bool-cases (bit_and (m.memory (offset curr index)) 1 == 0)) [
          | inl absent ↦
              rw absent
                (absent_IsNext ((==_iff (bit_and (m.memory (offset curr index)) 1) 0).0 absent))
          | inr there ↦ rw there (
              next _ _ _ (
                present_IsStep
                  (λ q. cc (there, (==_iff (bit_and (m.memory (offset curr index)) 1) 0).1 q))))
        ])
