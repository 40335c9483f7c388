-- ===== src/Mm/Vmm/Next/Fresh.antt =====
-- The case of `get_next_level` that allocates a table.
use griffin.Common.{
  ℕ, suc, ◌+◌, ◌*◌, ◌/◌, ◌^◌, ◌≤◌, ◌<◌, ◌≡◌, refl, ◌≢◌, ◌⊎◌, inl, inr, ap, ap₂, sym, ◌∙◌, bit_and,
  bit_or, true, Option, some, List, [], ◌∷◌, length, arith, ◌==◌, if◌then◌else◌, ℕ_discrete,
}
use griffin.Bits.Digits.{bit_at-bit_or}
use griffin.Bits.Masks.{bit_and-pow}
use griffin.Utils.Bitmap.Laws.{bit_of}
use griffin.Arch.PhysAddr.{page_size, remove_flags}
use griffin.Arch.PhysAddr.Laws.{remove_flags-bit_or}
use griffin.Arch.Pmm.{Pmm, Machine, zero_pages}
use griffin.Arch.Pmm.Alloc.{IsClaim}
use griffin.Arch.Pmm.Free.{IsClaim-IsPmm}
use griffin.Arch.Memory.{offset, write_word}
use griffin.Mm.Vmm.Next.{IsStep}
use griffin.Mm.Vmm.Tables.{
  target, or_zero, entry_at, Place, IsPaging, Small, FewFree, slot_injective, target_present,
  target_absent, entry_at-cons, ne_of_depth, linked_target,
}

-- An entry that points to the page with the flags of a table, 7.
abbrev pub new_entry : ℕ → ℕ
new_entry page = bit_or (page * page_size) 7

new_entry-present : (page : ℕ) → bit_and (new_entry page) 1 ≢ 0
new_entry-present page =
    omega (arith, bit_and-pow 0 (new_entry page), bit_at-bit_or 0 (page * page_size) 7)

new_entry-address :
    (page : ℕ) → page * page_size < 2 ^ 47 → remove_flags (new_entry page) ≡ page * page_size
unfolding remove_flags
new_entry-address page low =
    remove_flags-bit_or (page * page_size) 7 (omega arith) (omega arith) refl

pub new_entry-target :
    (page : ℕ) → page * page_size < 2 ^ 47 → target (new_entry page) ≡ some (page * page_size)
new_entry-target page low =
    target_present (new_entry page) (new_entry-present page) ∙ ap some (new_entry-address page low)

module _ {pagemap : ℕ} {place : ℕ → Option Place} {m : Machine} (ok : IsPaging pagemap place m)
    {curr index : ℕ} {π : Place} (at : place curr ≡ some π) (short : length π < 3)
    (small : index < 512) (absent : bit_and (m.memory (offset curr index)) 1 ≡ 0) {page : ℕ}
    {b' : Pmm} (c : IsClaim m.pmm 1 page b') where
  abbrev pub new_place : ℕ → Option Place
  new_place a = if a == page * page_size then some (index ∷ π) else place a

  abbrev pub new_memory : ℕ → ℕ
  new_memory =
      write_word (offset curr index) (new_entry page) (zero_pages (page * page_size) 1 m.memory)

  page_low : page * page_size + page_size ≤ 2 ^ 47
  page_low = omega (arith, c.inside, ok.pmm.fits)

  -- The page was free, so no table lies in it.
  not_page : (a : ℕ) (σ : Place) → place a ≡ some σ → a ≢ page * page_size
  not_page a σ e same =
      let free_page : bit_of m.pmm page ≡ true = c.run page (omega arith) (omega arith) in
      let in_page : a / page_size ≡ page = omega arith in
      cc (ap (bit_of m.pmm) in_page, ok.used a σ e, free_page)

  new_place-old : (a : ℕ) (σ : Place) → place a ≡ some σ → new_place a ≡ some σ
  new_place-old a σ e = ground (arith, not_page a σ e)

  -- The memory of the old tables is as it was, but for the one entry.
  old_slot :
      (a i : ℕ) (σ : Place)
      → place a ≡ some σ
      → i < 512
      → ¬ ((a ≡ curr) × (i ≡ index))
      → new_memory (offset a i) ≡ m.memory (offset a i)
  old_slot a i σ e hi ne =
      let apart : offset curr index ≢ offset a i = λ q.
        (let (x, y) =
            slot_injective curr a index i (ok.aligned curr π at) (ok.aligned a σ e) small hi q in
          ne (sym x, sym y)) in
      ground (arith, apart, not_page a σ e, ok.aligned a σ e)

  new_slot : new_memory (offset curr index) ≡ new_entry page
  new_slot = ground arith

  zero_slot : (i : ℕ) → i < 512 → new_memory (offset (page * page_size) i) ≡ 0
  zero_slot i hi =
      let apart : offset curr index ≢ offset (page * page_size) i = λ q.
        not_page curr π at
          (slot_injective curr (page * page_size) index i (ok.aligned curr π at) (omega arith) small
            hi q).0 in
      ground (arith, apart)

  entry_at-new :
      (is : List ℕ) (last : ℕ)
      → Small is
      → last < 512
      → entry_at new_memory (page * page_size) is last ≡ 0
  unfolding entry_at
  entry_at-new [] last hs hl = zero_slot last hl
  entry_at-new (i ∷ is) last hs hl = rw (zero_slot i hs.0) refl

  entry_at-here :
      (is : List ℕ) (last : ℕ)
      → Small is
      → last < 512
      → entry_at new_memory curr (index ∷ is) last ≡ entry_at m.memory curr (index ∷ is) last
  unfolding entry_at
  entry_at-here is last hs hl =
      let leads : target (new_memory (offset curr index)) ≡ some (page * page_size) =
        ap target new_slot ∙ new_entry-target page (omega (arith, page_low)) in
      let after = ap (λ (o : Option ℕ). or_zero o (λ t. entry_at new_memory t is last)) leads in
      let before =
        ap (λ (o : Option ℕ). or_zero o (λ t. entry_at m.memory t is last))
          (target_absent (m.memory (offset curr index)) absent) in
      after ∙ entry_at-new is last hs hl ∙ sym before

  entry_at-old :
      (a : ℕ) (σ : Place) (is : List ℕ) (last : ℕ)
      → place a ≡ some σ
      → length σ + length is ≡ 3
      → Small is
      → last < 512
      → entry_at new_memory a is last ≡ entry_at m.memory a is last
  entry_at-old a σ [] last e depth hs hl =
      unfold entry_at in
      old_slot a last σ e hl (λ q. ne_of_depth ok a curr σ π e at (omega arith) q.0)
  entry_at-old a σ (i ∷ is) last e depth hs hl =
      let beside = λ (ne : ¬ ((a ≡ curr) × (i ≡ index))).
        entry_at-cons new_memory m.memory a i is last (old_slot a i σ e hs.0 ne) λ t q.
          entry_at-old t (i ∷ σ) is last (linked_target ok a i t σ e (omega arith) hs.0 q)
            (omega arith) hs.1 hl in
      elim (ℕ_discrete a curr) [
        | no ne ↦ beside (λ q. ne q.0)
        | yes ea ↦ elim (ℕ_discrete i index) [
          | no ne ↦ beside (λ q. ne q.1)
          | yes ei ↦ rw (ea, ei) (entry_at-here is last hs.1 hl)
        ]
      ]

  new_place_cases :
      (t : ℕ) (ρ : Place)
      → new_place t ≡ some ρ
      → ((t ≡ page * page_size) × (index ∷ π ≡ ρ)) ⊎ (place t ≡ some ρ)
  new_place_cases t ρ h = ground arith

  abbrev pub new_machine : Machine
  new_machine = record { pmm = b'; memory = new_memory }

  new_linked :
      (t i : ℕ) (ρ : Place)
      → place t ≡ some ρ
      → length ρ < 3
      → i < 512
      → bit_and (new_memory (offset t i)) 1 ≢ 0
      → new_place (remove_flags (new_memory (offset t i))) ≡ some (i ∷ ρ)
  new_linked t i ρ e above hi there = elim (ℕ_discrete t curr) [
    | no ne ↦ beside (λ q. ne q.0)
    | yes ea ↦ elim (ℕ_discrete i index) [
      | no ne ↦ beside (λ q. ne q.1)
      | yes ei ↦
          let value : new_memory (offset t i) ≡ new_entry page =
            ap₂ (λ (x y : ℕ). new_memory (offset x y)) ea ei ∙ new_slot in
          let leads : remove_flags (new_memory (offset t i)) ≡ page * page_size =
            ap remove_flags value ∙ new_entry-address page (omega (arith, page_low)) in
          let here : new_place (page * page_size) ≡ some (index ∷ π) = ground arith in
          let same : π ≡ ρ = cc (ap place ea) in ap new_place leads ∙ here ∙ cc
    ]
  ]
    where
      beside :
          ¬ ((t ≡ curr) × (i ≡ index))
          → new_place (remove_flags (new_memory (offset t i))) ≡ some (i ∷ ρ)
      beside ne =
          let value : new_memory (offset t i) ≡ m.memory (offset t i) = old_slot t i ρ e hi ne in
          ap (λ (v : ℕ). new_place (remove_flags v)) value
          ∙ new_place-old (remove_flags (m.memory (offset t i))) (i ∷ ρ)
              (ok.linked t i ρ e above hi (λ z. there (ap (λ (v : ℕ). bit_and v 1) value ∙ z)))

  new_IsPaging : IsPaging pagemap new_place new_machine
  new_IsPaging = record {
    pmm = IsClaim-IsPmm ok.pmm c;
    root = new_place-old pagemap [] ok.root;
    aligned = λ t ρ e. elim (new_place_cases t ρ e) [
      | inl q ↦ omega (arith, q.0)
      | inr old ↦ ok.aligned t ρ old
    ];
    low = λ t ρ e. elim (new_place_cases t ρ e) [
      | inl q ↦ omega (arith, q.0, page_low)
      | inr old ↦ ok.low t ρ old
    ];
    used = λ t ρ e. elim (new_place_cases t ρ e) [
      | inl q ↦
          let d : t / page_size ≡ page = omega (arith, q.0) in rw d (ground (arith, c.bits page))
      | inr old ↦ ground (arith, c.bits (t / page_size), ok.used t ρ old)
    ];
    linked = λ t i ρ e above hi there. elim (new_place_cases t ρ e) [
      | inl q ↦ absurd (
          there (
            ap (λ (x : ℕ). bit_and (new_memory (offset x i)) 1) q.0
            ∙ ap (λ (v : ℕ). bit_and v 1) (zero_slot i hi)))
      | inr old ↦ new_linked t i ρ old above hi there
    ];
  }

  new_spent : (k : ℕ) → FewFree k b' → FewFree (suc k) m.pmm
  new_spent k (l, short_list, all) = (page ∷ l, omega arith, λ j h. ground (arith, all j, c.bits j))

  -- The machine in which the new table is linked.
  pub new_IsStep : IsStep pagemap place m curr index π (page * page_size) new_machine new_place
  new_IsStep = record {
    paging = new_IsPaging;
    at = ground arith;
    now = ap target new_slot ∙ new_entry-target page (omega (arith, page_low));
    grows = new_place-old;
    links = λ a i b σ e hi h.
        ap target (
          old_slot a i σ e hi λ q. cc (
            ap₂ (λ (x y : ℕ). target (m.memory (offset x y))) q.0 q.1,
            target_absent (m.memory (offset curr index)) absent,
            h,
          ))
        ∙ h;
    keeps = entry_at-old;
    claims = λ j h. ground (arith, c.bits j);
    spent = new_spent;
  }
