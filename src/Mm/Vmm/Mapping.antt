-- ===== src/Mm/Vmm/Mapping.antt =====
-- A write to an entry of a page table changes the translation of one page.
use griffin.Common.{
  ℕ, ◌+◌, ◌/◌, ◌%◌, ◌^◌, ◌<◌, ◌≡◌, refl, ◌≢◌, ap, sym, ◌∙◌, bit_and, true, false, Option, some,
  List, [], ◌∷◌, reverse_aux, length, arith, ◌==◌, ==_iff, if◌then◌else◌, ℕ_discrete,
}
use griffin.Arch.PhysAddr.{page_size, remove_flags}
use griffin.Arch.Pmm.{Machine}
use griffin.Arch.Memory.{offset, write_word}
use griffin.Mm.VirtAddr.{pml4, pdp, pd, pt}
use griffin.Mm.VirtAddr.Laws.{same_page_iff}
use griffin.Mm.Vmm.Tables.{
  target, entry_at, translate, Place, IsPaging, Small, linked_target, ne_of_depth, entry_at-cons,
  slot_injective,
}
use griffin.Mm.Vmm.Walk.{place_of, way, way-Small, pt-lt, Leads}

-- The number of the page that an address lies in.
abbrev pub page_of : ℕ → ℕ
page_of addr = addr % 2 ^ 48 / page_size

-- Where the tables are there, the translation of `addr` is the entry of its page table.
pub translate-Leads :
    {memory : ℕ → ℕ} {pagemap addr t1 t2 t3 : ℕ}
    → Leads memory pagemap addr t1 t2 t3
    → translate memory pagemap addr ≡ memory (offset t3 (pt addr))
unfolding translate
translate-Leads l = rw (entry_at, l.first, l.second, l.third) refl

pub translate-cong :
    (memory : ℕ → ℕ) (pagemap a b : ℕ)
    → pml4 a ≡ pml4 b
    → pdp a ≡ pdp b
    → pd a ≡ pd b
    → pt a ≡ pt b
    → translate memory pagemap a ≡ translate memory pagemap b
unfolding translate
translate-cong memory pagemap a b e4 e3 e2 e1 = rw (e4, e3, e2, e1) refl

-- A write to the entry of `addr` in its page table `t`.
module _ {pagemap : ℕ} {place : ℕ → Option Place} {m : Machine} (ok : IsPaging pagemap place m)
    {addr t1 t2 t : ℕ} (at1 : place t1 ≡ some (pml4 addr ∷ []))
    (at2 : place t2 ≡ some (pdp addr ∷ pml4 addr ∷ [])) (at3 : place t ≡ some (place_of addr))
    (l : Leads m.memory pagemap addr t1 t2 t) (v : ℕ) where
  abbrev pub after : Machine
  after = record m { memory = write_word (offset t (pt addr)) v m.memory }

  -- The entries of the upper tables are as they were.
  upper :
      (a i : ℕ) (σ : Place)
      → place a ≡ some σ
      → length σ < 3
      → i < 512
      → after.memory (offset a i) ≡ m.memory (offset a i)
  upper a i σ e above hi =
      let apart : offset t (pt addr) ≢ offset a i = λ q.
        (let same : t ≡ a =
            (slot_injective t a (pt addr) i (ok.aligned t (place_of addr) at3) (ok.aligned a σ e)
              (pt-lt addr) hi q).0 in
          ne_of_depth ok t a (place_of addr) σ at3 e (omega arith) same) in
      ground arith

  pub after-IsPaging : IsPaging pagemap place after
  after-IsPaging = record {
    pmm = ok.pmm;
    root = ok.root;
    aligned = ok.aligned;
    low = ok.low;
    used = ok.used;
    linked = λ a i σ e above hi there.
        let same = upper a i σ e above hi in
        ap (λ (x : ℕ). place (remove_flags x)) same
        ∙ ok.linked a i σ e above hi (λ z. there (ap (λ (x : ℕ). bit_and x 1) same ∙ z));
  }

  pub after-Leads : Leads after.memory pagemap addr t1 t2 t
  after-Leads = record {
    first =
        ap target (upper pagemap (pml4 addr) [] ok.root (omega arith) (way-Small addr).0) ∙ l.first;
    second =
        ap target (upper t1 (pdp addr) (pml4 addr ∷ []) at1 (omega arith) (way-Small addr).1.0)
        ∙ l.second;
    third =
        ap target
          (upper t2 (pd addr) (pdp addr ∷ pml4 addr ∷ []) at2 (omega arith) (way-Small addr).1.1.0)
        ∙ l.third;
  }

  -- The entry that any other path reaches is as it was.
  entry_at-after :
      (a : ℕ) (σ : Place) (is : List ℕ) (last : ℕ)
      → place a ≡ some σ
      → length σ + length is ≡ 3
      → Small is
      → last < 512
      → ¬ ((reverse_aux is σ ≡ place_of addr) × (last ≡ pt addr))
      → entry_at after.memory a is last ≡ entry_at m.memory a is last
  entry_at-after a σ [] last e depth hs hl ne =
      let apart : offset t (pt addr) ≢ offset a last = λ q.
        (let (same, same_last) =
            slot_injective t a (pt addr) last (ok.aligned t (place_of addr) at3) (ok.aligned a σ e)
              (pt-lt addr) hl q in
          ne (cc (ap place same), sym same_last)) in
      unfold entry_at in ground arith
  entry_at-after a σ (i ∷ is) last e depth hs hl ne =
      entry_at-cons after.memory m.memory a i is last (upper a i σ e (omega arith) hs.0) λ b q.
        entry_at-after b (i ∷ σ) is last (linked_target ok a i b σ e (omega arith) hs.0 q)
          (omega arith) hs.1 hl ne

  -- The translation changes at the page of `addr`, and nowhere else.
  pub translate-after :
      (a : ℕ)
      → translate after.memory pagemap a
        ≡ (if page_of addr == page_of a then v else translate m.memory pagemap a)
  translate-after a = elim (ℕ_discrete (page_of addr) (page_of a)) [
    | yes same ↦
        let hit : (page_of addr == page_of a) ≡ true = (==_iff (page_of addr) (page_of a)).1 same in
        let (e4, e3, e2, e1) = (same_page_iff addr a).1 same in
        rw hit (
          translate-cong after.memory pagemap a addr (sym e4) (sym e3) (sym e2) (sym e1)
          ∙ translate-Leads after-Leads
          ∙ written)
    | no other ↦
        let miss : (page_of addr == page_of a) ≡ false = ground arith in
        rw miss (
          unfold translate in
          entry_at-after pagemap [] (way a) (pt a) ok.root refl (way-Small a) (pt-lt a)
            λ (q, last). other ((same_page_iff addr a).0 (cc q, cc q, cc q, sym last)))
  ]
    where
      written : after.memory (offset t (pt addr)) ≡ v
      written = ground arith
