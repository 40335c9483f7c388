-- ===== src/Mm/Vmm/Claims.antt =====
-- Taking pages from the allocator leaves the page tables as they were.
use griffin.Common.{
  ℕ, ◌+◌, ◌*◌, ◌/◌, ◌≤◌, ◌<◌, ◌≡◌, refl, ap, ◌∙◌, bit_and, Option, some, List, [], ◌∷◌, length,
  arith, dec_lt,
}
use griffin.Arch.PhysAddr.{page_size, remove_flags}
use griffin.Arch.Pmm.{Pmm, Machine, zero_pages}
use griffin.Arch.Pmm.Alloc.{IsClaim}
use griffin.Arch.Pmm.Free.{IsClaim-IsPmm}
use griffin.Arch.Memory.{offset}
use griffin.Mm.Vmm.Tables.{
  entry_at, translate, Place, IsPaging, Small, linked_target, entry_at-cons,
}
use griffin.Mm.Vmm.Walk.{way-Small, pt-lt, way}
use griffin.Mm.VirtAddr.{pt}

module _ {pagemap : ℕ} {place : ℕ → Option Place} {m : Machine} (ok : IsPaging pagemap place m)
    {pages page : ℕ} {b' : Pmm} (c : IsClaim m.pmm pages page b') where
  abbrev pub claimed : Machine
  claimed = record { pmm = b'; memory = zero_pages (page * page_size) pages m.memory }

  -- A table lies in a used page, so it is not cleared.
  pub claimed_slot :
      (a i : ℕ) (σ : Place)
      → place a ≡ some σ
      → i < 512
      → claimed.memory (offset a i) ≡ m.memory (offset a i)
  claimed_slot a i σ e hi =
      let used = ok.used a σ e in
      let outside : ¬ ((page ≤ a / page_size) × (a / page_size < page + pages)) =
        λ (lo, hi'). (let free_page = c.run (a / page_size) lo hi' in cc) in
      let aligned = ok.aligned a σ e in
      elim (dec_lt (a / page_size) page) [
        | yes before ↦ ground arith
        | no late ↦ elim (dec_lt (a / page_size) (page + pages)) [
          | yes early ↦ absurd (outside (omega arith, early))
          | no after ↦ ground arith
        ]
      ]

  -- A memory that has the tables' entries, with the allocator after the claim.
  module _ (memory' : ℕ → ℕ)
      (same : (a i : ℕ) (σ : Place)
        → place a ≡ some σ
        → i < 512
        → memory' (offset a i) ≡ m.memory (offset a i)) where
    -- Every path from a table ends at the entry that it ended at.
    pub entry_at-same :
        (a : ℕ) (σ : Place) (is : List ℕ) (last : ℕ)
        → place a ≡ some σ
        → length σ + length is ≡ 3
        → Small is
        → last < 512
        → entry_at memory' a is last ≡ entry_at m.memory a is last
    entry_at-same a σ [] last e depth hs hl = unfold entry_at in same a last σ e hl
    entry_at-same a σ (i ∷ is) last e depth hs hl =
        entry_at-cons memory' m.memory a i is last (same a i σ e hs.0) λ t q.
          entry_at-same t (i ∷ σ) is last (linked_target ok a i t σ e (omega arith) hs.0 q)
            (omega arith) hs.1 hl

    pub translate-same : (a : ℕ) → translate memory' pagemap a ≡ translate m.memory pagemap a
    unfolding translate
    translate-same a = entry_at-same pagemap [] (way a) (pt a) ok.root refl (way-Small a) (pt-lt a)

    pub same-IsPaging : IsPaging pagemap place (record { pmm = b'; memory = memory' })
    same-IsPaging = record {
      pmm = IsClaim-IsPmm ok.pmm c;
      root = ok.root;
      aligned = ok.aligned;
      low = ok.low;
      used = λ t π e. ground (arith, c.bits (t / page_size), ok.used t π e);
      linked = λ t i π e above hi there.
          let slot = same t i π e hi in
          ap (λ (x : ℕ). place (remove_flags x)) slot
          ∙ ok.linked t i π e above hi (λ z. there (ap (λ (x : ℕ). bit_and x 1) slot ∙ z));
    }
