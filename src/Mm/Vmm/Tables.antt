-- ===== src/Mm/Vmm/Tables.antt =====
-- What the page tables stand for, as the processor reads them, and when they are well formed.
use griffin.Common.{
  ℕ, ◌+◌, ◌/◌, ◌%◌, ◌^◌, ◌≤◌, ◌<◌, ◌≡◌, refl, ◌≢◌, ap, ◌∙◌, bit_and, Bool, true, false, ◌||◌,
  Option, none, some, List, [], ◌∷◌, length, arith, ◌==◌, if◌then◌else◌,
}
use griffin.Utils.Bitmap.Laws.{bit_of}
use griffin.Arch.PhysAddr.{page_size, remove_flags}
use griffin.Arch.Pmm.{Pmm, Machine}
use griffin.Arch.Pmm.Alloc.{IsPmm}
use griffin.Arch.Memory.{offset}
use griffin.Mm.VirtAddr.{pml4, pdp, pd, pt}

-- The table that an entry leads to; none if the entry's present bit is clear.
abbrev pub target : ℕ → Option ℕ
target entry = if bit_and entry 1 == 0 then none else some (remove_flags entry)

abbrev pub or_zero : Option ℕ → (ℕ → ℕ) → ℕ
or_zero none f = 0
or_zero (some a) f = f a

-- The entry at the last of a list of indices, from a table on; 0 if a table on the way is missing.
unfoldable pub entry_at : (ℕ → ℕ) → ℕ → List ℕ → ℕ → ℕ
entry_at memory table [] last = memory (offset table last)
entry_at memory table (i ∷ is) last =
    or_zero (target (memory (offset table i))) (λ next. entry_at memory next is last)

-- The processor's translation of an address: the entry of its page, 0 if a table is missing.
unfoldable pub translate : (ℕ → ℕ) → ℕ → ℕ → ℕ
unfolding entry_at
translate memory pagemap addr =
    entry_at memory pagemap (pml4 addr ∷ pdp addr ∷ pd addr ∷ []) (pt addr)

-- A place in the tree of tables: the indices that lead to it from the root, the last one first.
abbrev pub Place : Type 0
Place = List ℕ

-- The tables form a tree of four levels: `place` says where each stands. A table lies in a used page,
-- and an entry that is present leads to the table at that entry's place.
pub record IsPaging (pagemap : ℕ) (place : ℕ → Option Place) (m : Machine) : Type 0 where
  pub pmm : IsPmm m.pmm
  pub root : place pagemap ≡ some []
  pub aligned : (t : ℕ) (π : Place) → place t ≡ some π → t % page_size ≡ 0
  pub low : (t : ℕ) (π : Place) → place t ≡ some π → t + page_size ≤ 2 ^ 47
  pub used : (t : ℕ) (π : Place) → place t ≡ some π → bit_of m.pmm (t / page_size) ≡ false
  pub linked :
      (t i : ℕ) (π : Place)
      → place t ≡ some π
      → length π < 3
      → i < 512
      → bit_and (m.memory (offset t i)) 1 ≢ 0
      → place (remove_flags (m.memory (offset t i))) ≡ some (i ∷ π)

-- Every index is that of an entry of a table.
abbrev pub Small : List ℕ → Type 0
Small [] = Unit
Small (i ∷ is) = (i < 512) × Small is

abbrev pub has : ℕ → List ℕ → Bool
has a [] = false
has a (x ∷ xs) = (a == x) || has a xs

-- At most `k` pages are free.
abbrev pub FewFree : ℕ → Pmm → Type 0
FewFree k b = (l : List ℕ) × (length l ≤ k) × ((j : ℕ) → bit_of b j ≡ true → has j l ≡ true)

-- Entries at different places have different addresses.
pub slot_injective :
    (s t i j : ℕ)
    → s % page_size ≡ 0
    → t % page_size ≡ 0
    → i < 512
    → j < 512
    → offset s i ≡ offset t j
    → (s ≡ t) × (i ≡ j)
slot_injective s t i j hs ht hi hj e = (omega arith, omega arith)

pub target_present : (entry : ℕ) → bit_and entry 1 ≢ 0 → target entry ≡ some (remove_flags entry)
target_present entry h = ground arith

pub target_absent : (entry : ℕ) → bit_and entry 1 ≡ 0 → target entry ≡ none
target_absent entry h = ground arith

pub target-some :
    (entry t : ℕ) → target entry ≡ some t → (bit_and entry 1 ≢ 0) × (remove_flags entry ≡ t)
target-some entry t h = ground arith

pub or_zero_eq :
    (o : Option ℕ) (f g : ℕ → ℕ) → ((t : ℕ) → o ≡ some t → f t ≡ g t) → or_zero o f ≡ or_zero o g
or_zero_eq none f g h = refl
or_zero_eq (some t) f g h = h t refl

-- Two memories agree along a path whose first entry they share, if they agree from there on.
pub entry_at-cons :
    (f g : ℕ → ℕ) (a i : ℕ) (is : List ℕ) (last : ℕ)
    → f (offset a i) ≡ g (offset a i)
    → ((b : ℕ) → target (g (offset a i)) ≡ some b → entry_at f b is last ≡ entry_at g b is last)
    → entry_at f a (i ∷ is) last ≡ entry_at g a (i ∷ is) last
unfolding entry_at
entry_at-cons f g a i is last same deeper =
    ap (λ (x : ℕ). or_zero (target x) (λ b. entry_at f b is last)) same
    ∙ or_zero_eq (target (g (offset a i))) _ _ deeper

module _ {pagemap : ℕ} {place : ℕ → Option Place} {m : Machine}
    (ok : IsPaging pagemap place m) where
  -- A present entry leads to the table at its place.
  pub linked_target :
      (a i t : ℕ) (σ : Place)
      → place a ≡ some σ
      → length σ < 3
      → i < 512
      → target (m.memory (offset a i)) ≡ some t
      → place t ≡ some (i ∷ σ)
  linked_target a i t σ e short hi q =
      let (there, same) = target-some (m.memory (offset a i)) t q in
      rw (← same) (ok.linked a i σ e short hi there)

  -- Tables of different depths differ.
  pub ne_of_depth :
      (a b : ℕ) (σ π : Place) → place a ≡ some σ → place b ≡ some π → length σ ≢ length π → a ≢ b
  ne_of_depth a b σ π ea eb ne same = ne (ap length (cc (ap place same)))
