-- ===== src/Mm/Ranges/Spaces.antt =====
-- mm/vmm.rs, `VirtualMemManager::new`: the address space of a program shares the kernel's tables.
use griffin.Common.{
  ℕ, ◌+◌, ◌*◌, ◌/◌, ◌^◌, ◌≤◌, ◌<◌, ◌≡◌, refl, ◌≢◌, ap, sym, ◌∙◌, Bool, true, ◌||◌, Option, some, [],
  ◌∷◌, arith, Outcome, done, panic, ◌>>=◌, expect, ◌==◌, if◌then◌else◌, ℕ_discrete, Bool-cases, inl,
  inr,
}
use griffin.Utils.Bitmap.Laws.{bit_of}
use griffin.Arch.PhysAddr.{page_size, higher_half}
use griffin.Arch.Pmm.{Pmm, Machine, calloc, calloc_result, zero_pages}
use griffin.Arch.Pmm.Alloc.{IsClaim, IsAlloc, alloc-IsAlloc}
use griffin.Arch.Memory.{offset, write_word, load-slot, store-slot_high}
use griffin.Mm.Ranges.{VirtualMemManager, copy_entry, new_vmm}
use griffin.Mm.VirtAddr.{pml4, pdp, pd, pt}
use griffin.Mm.Vmm.Tables.{
  target, or_zero, or_zero_eq, entry_at, translate, Place, IsPaging, FewFree, slot_injective,
  linked_target,
}
use griffin.Mm.Vmm.Next.Level.{FewFree-none}
use griffin.Mm.Vmm.Walk.{way-Small, pt-lt}
use griffin.Mm.Vmm.Claims.{claimed, claimed_slot, entry_at-same, translate-same, same-IsPaging}

-- An entry of the top table that the kernel and the programs share.
abbrev pub is_shared : ℕ → Bool
is_shared i = (i == 256) || (i == 511)

-- The outcomes of a program's new address space: its top table is a page that was free, the kernel's
-- translations are as they were, and the new ones are the kernel's in the two shared parts and none
-- elsewhere; or a panic since no page is free.
pub data IsSpace (Fs : Type 0) (kernel : ℕ) (place : ℕ → Option Place) (m : Machine)
    : Outcome (VirtualMemManager Fs × Machine) → Type 0 where
  made :
      (page : ℕ) (m' : Machine)
      → bit_of m.pmm page ≡ true
      → IsPaging kernel place m'
      → ((a : ℕ) → translate m'.memory kernel a ≡ translate m.memory kernel a)
      → ((a : ℕ)
          → translate m'.memory (page * page_size) a
            ≡ (if is_shared (pml4 a) then translate m.memory kernel a else 0))
      → IsSpace Fs kernel place m (done (record { pagemap = page * page_size; ranges = [] }, m'))
  no_page : FewFree 0 m.pmm → IsSpace Fs kernel place m panic

module _ {kernel : ℕ} {place : ℕ → Option Place} {m : Machine} (ok : IsPaging kernel place m)
    {page : ℕ} {b' : Pmm} (c : IsClaim m.pmm 1 page b') where
  abbrev new : ℕ
  new = page * page_size

  abbrev entry : ℕ → ℕ
  entry i = m.memory (offset kernel i)

  abbrev after : ℕ → ℕ
  after =
      write_word (offset new 511) (entry 511)
        (write_word (offset new 256) (entry 256) (zero_pages new 1 m.memory))

  new-low : new + page_size ≤ 2 ^ 47
  new-low = omega (arith, c.inside, ok.pmm.fits)

  -- The new table is none of the kernel's.
  not_new : (a : ℕ) (σ : Place) → place a ≡ some σ → a ≢ new
  not_new a σ e same =
      let free_page : bit_of m.pmm page ≡ true = c.run page (omega arith) (omega arith) in
      let in_page : a / page_size ≡ page = omega arith in
      cc (ap (bit_of m.pmm) in_page, ok.used a σ e, free_page)

  apart : (a i j : ℕ) (σ : Place) → place a ≡ some σ → i < 512 → j < 512 → offset new j ≢ offset a i
  apart a i j σ e hi hj q =
      not_new a σ e (sym (slot_injective new a j i (omega arith) (ok.aligned a σ e) hj hi q).0)

  after_slot :
      (a i : ℕ) (σ : Place)
      → place a ≡ some σ
      → i < 512
      → after (offset a i) ≡ m.memory (offset a i)
  after_slot a i σ e hi =
      let n511 = apart a i 511 σ e hi (omega arith) in
      let n256 = apart a i 256 σ e hi (omega arith) in
      let kept = claimed_slot ok c a i σ e hi in ground arith

  -- The entries of the new table.
  new_slot : (i : ℕ) → i < 512 → after (offset new i) ≡ (if is_shared i then entry i else 0)
  new_slot i hi = elim (ℕ_discrete i 511) [
    | yes e ↦ rw e (ground arith)
    | no last ↦ elim (ℕ_discrete i 256) [ yes e ↦ rw e (ground arith) | no other ↦ ground arith ]
  ]

  translate-new :
      (a : ℕ)
      → translate after new a ≡ (if is_shared (pml4 a) then translate m.memory kernel a else 0)
  unfolding translate entry_at
  translate-new a =
      let (top, (second, (third, rest))) = way-Small a in
      let first = new_slot (pml4 a) top in
      let deeper = λ (b : ℕ). entry_at after b (pdp a ∷ pd a ∷ []) (pt a) in
      elim (Bool-cases (is_shared (pml4 a))) [
        | inl e ↦
            let value : after (offset new (pml4 a)) ≡ entry (pml4 a) = first ∙ rw e refl in
            rw e (
              ap (λ (x : ℕ). or_zero (target x) deeper) value
              ∙ or_zero_eq (target (entry (pml4 a))) _ _ λ t q.
                entry_at-same ok c after after_slot t (pml4 a ∷ []) (pdp a ∷ pd a ∷ []) (pt a)
                  (linked_target ok kernel (pml4 a) t [] ok.root (omega arith) top q) refl
                  (second, (third, rest)) (pt-lt a))
        | inr e ↦
            let value : after (offset new (pml4 a)) ≡ 0 = first ∙ rw e refl in
            rw e (ap (λ (x : ℕ). or_zero (target x) deeper) value)
      ]

  copy_entry_lem :
      (i : ℕ) (m1 : Machine)
      → i < 512
      → copy_entry (higher_half new) kernel i m1
        ≡ record m1 { memory = write_word (offset new i) (m1.memory (offset kernel i)) m1.memory }
  copy_entry_lem i m1 hi =
      rw
        (
          load-slot kernel i (omega (arith, ok.low kernel [] ok.root)) m1,
          store-slot_high new i (omega (arith, new-low)) m1 (m1.memory (offset kernel i)),
        )
        refl

  abbrev half_copied : Machine
  half_copied = record (claimed ok c) {
    memory = write_word (offset new 256) (entry 256) (claimed ok c).memory;
  }

  -- What `new` does to the memory.
  copied :
      copy_entry
        (higher_half new)
        kernel
        511
        (copy_entry (higher_half new) kernel 256 (claimed ok c))
      ≡ record { pmm = b'; memory = after }
  copied =
      let v256 = claimed_slot ok c kernel 256 [] ok.root (omega arith) in
      let v511 : half_copied.memory (offset kernel 511) ≡ entry 511 =
        (let n = apart kernel 511 256 [] ok.root (omega arith) (omega arith) in
          let kept = claimed_slot ok c kernel 511 [] ok.root (omega arith) in ground arith) in
      ap (copy_entry (higher_half new) kernel 511) (
        copy_entry_lem 256 (claimed ok c) (omega arith)
        ∙ ap
            (λ (v : ℕ). record (claimed ok c) {
              memory = write_word (offset new 256) v (claimed ok c).memory;
            })
            v256)
      ∙ copy_entry_lem 511 half_copied (omega arith)
      ∙ ap
          (λ (v : ℕ). record half_copied {
            memory = write_word (offset new 511) v half_copied.memory;
          })
          v511

-- For a program, on well-formed tables of the kernel, `new` has one of two outcomes. It returns an
-- address space without ranges whose top table is a page that was free, the tables stay well formed,
-- every translation of the kernel is as it was, and the new address space has the kernel's translations
-- for the addresses under entries 256 and 511 of the top table and no others; or it panics, and then no
-- page is free.
pub new_vmm-IsSpace :
    (Fs : Type 0) {kernel : ℕ} {place : ℕ → Option Place} {m : Machine}
    → IsPaging kernel place m
    → IsSpace Fs kernel place m (new_vmm true (some kernel) m)
unfolding new_vmm calloc
new_vmm-IsSpace Fs {kernel} {place} {m} ok = go (alloc-IsAlloc ok.pmm 1 (omega arith))
  where
    go :
        {r : Outcome (Option ℕ × Pmm)}
        → IsAlloc m.pmm 1 r
        → IsSpace Fs kernel place m (
            (r >>= λ p. done (calloc_result 1 m.memory p)) >>= λ (page, m'). expect page >>= λ pml4.
            done (
              record { pagemap = pml4; ranges = [] },
              copy_entry
                  (higher_half pml4)
                  kernel
                  511
                  (copy_entry (higher_half pml4) kernel 256 m'),
            ))
    go (IsAlloc.exhausted no_run) = IsSpace.no_page (FewFree-none ok.pmm.valid no_run)
    go (IsAlloc.found page b' c) = rw (copied ok c) (
        IsSpace.made page (record { pmm = b'; memory = after ok c })
          (c.run page (omega arith) (omega arith))
          (same-IsPaging ok c (after ok c) (after_slot ok c))
          (translate-same ok c (after ok c) (after_slot ok c)) (translate-new ok c))
