-- ===== src/Mm/Vmm/Next.antt =====
-- `get_next_level` finds or adds the next table, and changes no translation.
pub mod Fresh
pub mod Level
use griffin.Common.{
  ℕ, zero, suc, ◌+◌, ◌-◌, ◌*◌, ◌/◌, ◌%◌, ◌^◌, ◌≤◌, ◌<◌, ◌≡◌, refl, ◌≢◌, bit_and, bit_or, Bool, true,
  false, Option, none, some, List, [], ◌∷◌, length, arith, Outcome, done, panic,
}
use griffin.Utils.Bitmap.Laws.{bit_of}
use griffin.Arch.Pmm.{Machine}
use griffin.Arch.Memory.{offset}
use griffin.Mm.Vmm.Tables.{target, entry_at, Place, IsPaging, Small, FewFree}

-- Table `t` hangs at entry `index` of `curr` in `m'`, whose tables stand at `place'`. Every table of
-- `m` stands where it stood, every translation through it is as it was, and no page became free.
pub record IsStep (pagemap : ℕ) (place : ℕ → Option Place) (m : Machine) (curr index : ℕ)
    (π : Place) (t : ℕ) (m' : Machine) (place' : ℕ → Option Place) : Type 0 where
  pub paging : IsPaging pagemap place' m'
  pub at : place' t ≡ some (index ∷ π)
  pub now : target (m'.memory (offset curr index)) ≡ some t
  pub grows : (a : ℕ) (σ : Place) → place a ≡ some σ → place' a ≡ some σ
  pub links :
      (a i b : ℕ) (σ : Place)
      → place a ≡ some σ
      → i < 512
      → target (m.memory (offset a i)) ≡ some b
      → target (m'.memory (offset a i)) ≡ some b
  pub keeps :
      (a : ℕ) (σ : Place) (is : List ℕ) (last : ℕ)
      → place a ≡ some σ
      → length σ + length is ≡ 3
      → Small is
      → last < 512
      → entry_at m'.memory a is last ≡ entry_at m.memory a is last
  pub claims : (j : ℕ) → bit_of m'.pmm j ≡ true → bit_of m.pmm j ≡ true
  pub spent : (k : ℕ) → FewFree k m'.pmm → FewFree (suc k) m.pmm

-- The two outcomes: a table, or a panic since no page is free.
pub data IsNext (pagemap : ℕ) (place : ℕ → Option Place) (m : Machine) (curr index : ℕ) (π : Place)
    : Outcome (ℕ × Machine) → Type 0 where
  next :
      (t : ℕ) (m' : Machine) (place' : ℕ → Option Place)
      → IsStep pagemap place m curr index π t m' place'
      → IsNext pagemap place m curr index π (done (t, m'))
  no_page : FewFree 0 m.pmm → IsNext pagemap place m curr index π panic
