-- ===== src/Drivers/Ahci/Setup/Tables.antt =====
-- `AhciDevice::new` gives the slots: command tables that are apart.
use griffin.Common.{
  ℕ, suc, ◌+◌, ◌*◌, ◌^◌, ◌≤◌, ◌<◌, ◌≡◌, ◌≢◌, refl, ap, sym, ◌∙◌, bit_or, true, false, Option, arith,
  ◌==◌, if◌then◌else◌, ℕ_discrete,
}
use griffin.Utils.Bitmap.Laws.{bit_of}
use griffin.Arch.PhysAddr.{page_size}
use griffin.Arch.Pmm.{Machine}
use griffin.Mm.Flags.{Bitflags}
use griffin.Mm.Vmm.Tables.{translate, Place, IsPaging}
use griffin.Mm.Vmm.Mapping.{page_of}
use griffin.Drivers.Ahci.Port.{PortRegisters, header_size}
use griffin.Drivers.Ahci.Setup.Slots.{table_address, seen, IsSlotSet}
use griffin.Drivers.Ahci.Setup.{uncached}

-- The pages of the slots: `first` for slot `i`, and those of the later ones.
abbrev pick_page : ℕ → ℕ → (ℕ → ℕ) → ℕ → ℕ
pick_page i first later j = if j == i then first else later j

pick_page-first : (i first : ℕ) (later : ℕ → ℕ) (j : ℕ) → j ≡ i → pick_page i first later j ≡ first
pick_page-first i first later j e = ground arith

pick_page-later :
    (i first : ℕ) (later : ℕ → ℕ) (j : ℕ) → j ≢ i → pick_page i first later j ≡ later j
pick_page-later i first later j ne = ground arith

-- Different pages are seen at different pages.
page_of-seen :
    (p q : ℕ)
    → p * page_size < 2 ^ 47
    → q * page_size < 2 ^ 47
    → p ≢ q
    → page_of (seen p) ≢ page_of (seen q)
page_of-seen p q hp hq ne same = ne (omega arith)

module _ {World : Type 0} (flags : Bitflags) (pagemap : ℕ) (regs : PortRegisters World)
    (base : ℕ) where
  -- The slots from `i` up to `i + left` have tables of their own in `s'`: pages that were free, each
  -- mapped uncached, while every other page of the kernel translates as before, and no page became free.
  pub record AreSetUp (i left : ℕ) (s s' : World × Machine) : Type 0 where
    pub place' : ℕ → Option Place
    pub paging : IsPaging pagemap place' s'.1
    pub page : ℕ → ℕ
    pub points :
        (j : ℕ)
        → i ≤ j
        → j < i + left
        → table_address (regs.header (base + j * header_size) s'.0) ≡ page j * page_size
    pub low : (j : ℕ) → i ≤ j → j < i + left → page j * page_size < 2 ^ 47
    pub was_free : (j : ℕ) → i ≤ j → j < i + left → bit_of s.1.pmm (page j) ≡ true
    pub apart : (j k : ℕ) → i ≤ j → j < k → k < i + left → page j ≢ page k
    pub is_mapped :
        (j : ℕ)
        → i ≤ j
        → j < i + left
        → translate s'.1.memory pagemap (seen (page j))
          ≡ bit_or (page j * page_size) (uncached flags pagemap)
    pub kept :
        (a : ℕ)
        → ((j : ℕ) → i ≤ j → j < i + left → page_of (seen (page j)) ≢ page_of a)
        → translate s'.1.memory pagemap a ≡ translate s.1.memory pagemap a
    pub headers :
        (p : ℕ)
        → ((j : ℕ) → i ≤ j → j < i + left → base + j * header_size ≢ p)
        → regs.header p s'.0 ≡ regs.header p s.0
    pub claims : (j : ℕ) → bit_of s'.1.pmm j ≡ true → bit_of s.1.pmm j ≡ true

  module _ {i left : ℕ} {s s1 s' : World × Machine} (f : IsSlotSet flags pagemap regs base i s s1)
      (t : AreSetUp (i + 1) left s1 s') where
    abbrev chosen : ℕ → ℕ
    chosen = pick_page i f.page t.page

    -- A later slot's page is another one.
    other_page : (j : ℕ) → i < j → j < i + suc left → t.page j ≢ f.page
    other_page j lo hi same =
        let free = t.was_free j (omega arith) (omega arith) in
        cc (ap (bit_of s1.1.pmm) same, free, f.is_taken)

    -- What holds for the first slot and for the later ones holds for all.
    each :
        (Q : ℕ → ℕ → Type 0)
        → Q i f.page
        → ((j : ℕ) → i < j → j < i + suc left → Q j (t.page j))
        → (j : ℕ) → i ≤ j
        → j < i + suc left
        → Q j (chosen j)
    each Q first later j lo hi = elim (ℕ_discrete j i) [
      | yes e ↦ rw (pick_page-first i f.page t.page j e, e) first
      | no ne ↦ rw (pick_page-later i f.page t.page j ne) (later j (omega arith) hi)
    ]

    first_mapped :
        translate s'.1.memory pagemap (seen f.page)
        ≡ bit_or (f.page * page_size) (uncached flags pagemap)
    first_mapped =
        let hit : (page_of (seen f.page) == page_of (seen f.page)) ≡ true = ground arith in
        t.kept (seen f.page) (λ j lo hi.
          page_of-seen (t.page j) f.page (t.low j lo hi) f.low
            (other_page j (omega arith) (omega arith)))
        ∙ f.translates (seen f.page)
        ∙ rw hit refl

    missed :
        (a : ℕ)
        → page_of (seen f.page) ≢ page_of a
        → (if page_of (seen f.page) == page_of a
            then bit_or (f.page * page_size) (uncached flags pagemap)
            else translate s.1.memory pagemap a)
          ≡ translate s.1.memory pagemap a
    missed a ne =
        let miss : (page_of (seen f.page) == page_of a) ≡ false = ground arith in rw miss refl

    abbrev Away : ℕ → Type 0
    Away a = (j : ℕ) → i ≤ j → j < i + suc left → page_of (seen (chosen j)) ≢ page_of a

    Away-first : (a : ℕ) → Away a → page_of (seen f.page) ≢ page_of a
    Away-first a away =
        let h : page_of (seen (chosen i)) ≢ page_of a = away i (omega arith) (omega arith) in
        rw (pick_page-first i f.page t.page i refl) at h

    Away-later :
        (a : ℕ)
        → Away a
        → (j : ℕ) → i + 1 ≤ j
        → j < i + 1 + left
        → page_of (seen (t.page j)) ≢ page_of a
    Away-later a away j lo hi =
        let h : page_of (seen (chosen j)) ≢ page_of a = away j (omega arith) (omega arith) in
        rw (pick_page-later i f.page t.page j (omega arith)) at h

    pub together : AreSetUp i (suc left) s s'
    together = record {
      place' = t.place';
      paging = t.paging;
      page = chosen;
      points =
          each (λ j p. table_address (regs.header (base + j * header_size) s'.0) ≡ p * page_size)
            (ap table_address (t.headers (base + i * header_size) (λ j lo hi q. omega arith))
              ∙ f.points)
            (λ j lo hi. t.points j (omega arith) (omega arith));
      low =
          each (λ j p. p * page_size < 2 ^ 47) f.low
            (λ j lo hi. t.low j (omega arith) (omega arith));
      was_free =
          each (λ j p. bit_of s.1.pmm p ≡ true) f.was_free
            (λ j lo hi. f.claims (t.page j) (t.was_free j (omega arith) (omega arith)));
      apart = λ j k lo lt hi.
          (let e2 = pick_page-later i f.page t.page k (omega arith) in
            elim (ℕ_discrete j i) [
              | yes e ↦
                  rw (pick_page-first i f.page t.page j e, e2)
                    (λ q. other_page k (omega arith) hi (sym q))
              | no ne ↦
                  rw (pick_page-later i f.page t.page j ne, e2)
                    (t.apart j k (omega arith) lt (omega arith))
            ]);
      is_mapped =
          each
            (λ j p.
              translate s'.1.memory pagemap (seen p)
              ≡ bit_or (p * page_size) (uncached flags pagemap))
            first_mapped (λ j lo hi. t.is_mapped j (omega arith) (omega arith));
      kept = λ a away. t.kept a (Away-later a away) ∙ f.translates a ∙ missed a (Away-first a away);
      headers = λ p ne.
          t.headers p (λ j lo hi. ne j (omega arith) (omega arith))
          ∙ f.headers p (ne i (omega arith) (omega arith));
      claims = λ j h. f.claims j (t.claims j h);
    }
