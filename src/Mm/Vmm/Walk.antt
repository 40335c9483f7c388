-- ===== src/Mm/Vmm/Walk.antt =====
-- `page_table` finds or adds the three tables of an address, and changes no translation.
use griffin.Common.{
  ℕ, suc, ◌<◌, ◌≡◌, refl, ◌∙◌, true, Option, some, List, [], ◌∷◌, arith, Outcome, done, panic,
  ◌>>=◌,
}
use griffin.Utils.Bitmap.Laws.{bit_of}
use griffin.Arch.Pmm.{Machine}
use griffin.Arch.Memory.{offset}
use griffin.Mm.Flags.{Bitflags}
use griffin.Mm.VirtAddr.{pml4, pdp, pd, pt}
use griffin.Mm.VirtAddr.Laws.{pml4_lem, pdp_lem, pd_lem, pt_lem}
use griffin.Mm.Vmm.{get_next_level, page_table}
use griffin.Mm.Vmm.Tables.{target, translate, Place, IsPaging, Small, FewFree}
use griffin.Mm.Vmm.Next.{IsStep, IsNext}
use griffin.Mm.Vmm.Next.Level.{get_next_level-IsNext}

-- The place of the page table of an address.
abbrev pub place_of : ℕ → Place
place_of addr = pd addr ∷ pdp addr ∷ pml4 addr ∷ []

-- The indices of the address on the way down.
abbrev pub way : ℕ → List ℕ
way addr = pml4 addr ∷ pdp addr ∷ pd addr ∷ []

pub way-Small : (addr : ℕ) → Small (way addr)
way-Small addr =
    (omega (arith, pml4_lem addr), (omega (arith, pdp_lem addr), (omega (arith, pd_lem addr), tt)))

pub pt-lt : (addr : ℕ) → pt addr < 512
pt-lt addr = omega (arith, pt_lem addr)

-- In memory, the entries of `addr` lead from `pagemap` by `t1` and `t2` to `t3`.
pub record Leads (memory : ℕ → ℕ) (pagemap addr t1 t2 t3 : ℕ) : Type 0 where
  pub first : target (memory (offset pagemap (pml4 addr))) ≡ some t1
  pub second : target (memory (offset t1 (pdp addr))) ≡ some t2
  pub third : target (memory (offset t2 (pd addr))) ≡ some t3

pub record IsWalk (pagemap : ℕ) (m : Machine) (addr t : ℕ) (m' : Machine)
    (place' : ℕ → Option Place) : Type 0 where
  pub paging : IsPaging pagemap place' m'
  pub t1 : ℕ
  pub t2 : ℕ
  pub at1 : place' t1 ≡ some (pml4 addr ∷ [])
  pub at2 : place' t2 ≡ some (pdp addr ∷ pml4 addr ∷ [])
  pub at3 : place' t ≡ some (place_of addr)
  pub leads : Leads m'.memory pagemap addr t1 t2 t
  pub keeps : (a : ℕ) → translate m'.memory pagemap a ≡ translate m.memory pagemap a
  pub claims : (j : ℕ) → bit_of m'.pmm j ≡ true → bit_of m.pmm j ≡ true

-- The two outcomes of `page_table`: a table, or a panic where at most two pages were free.
pub data IsTable (pagemap : ℕ) (m : Machine) (addr : ℕ) : Outcome (ℕ × Machine) → Type 0 where
  table :
      (t : ℕ) (m' : Machine) (place' : ℕ → Option Place)
      → IsWalk pagemap m addr t m' place'
      → IsTable pagemap m addr (done (t, m'))
  no_page : FewFree 2 m.pmm → IsTable pagemap m addr panic

few_more : (m : Machine) (j k : ℕ) → j < suc k → FewFree j m.pmm → FewFree k m.pmm
few_more m j k le (l, short, all) = (l, omega arith, all)

-- A step from a table of `m` keeps every translation.
step_keeps :
    {pagemap curr index t : ℕ} {place place' : ℕ → Option Place} {π : Place} {m m' : Machine}
    → IsPaging pagemap place m
    → IsStep pagemap place m curr index π t m' place'
    → (a : ℕ) → translate m'.memory pagemap a ≡ translate m.memory pagemap a
unfolding translate
step_keeps {pagemap} ok s a = s.keeps pagemap [] (way a) (pt a) ok.root refl (way-Small a) (pt-lt a)

module _ (flags : Bitflags) {pagemap : ℕ} {m0 : Machine} {place0 : ℕ → Option Place}
    (ok0 : IsPaging pagemap place0 m0) (addr : ℕ) where
  -- The last step, from two tables that are there.
  third_step :
      {m m' : Machine} {place : ℕ → Option Place} {t1 t2 : ℕ} {place1 : ℕ → Option Place}
      → IsPaging pagemap place m
      → place t1 ≡ some (pml4 addr ∷ [])
      → target (m.memory (offset pagemap (pml4 addr))) ≡ some t1
      → ((a : ℕ) → translate m.memory pagemap a ≡ translate m0.memory pagemap a)
      → ((k : ℕ) → FewFree k m.pmm → FewFree (suc k) m0.pmm)
      → ((j : ℕ) → bit_of m.pmm j ≡ true → bit_of m0.pmm j ≡ true)
      → IsStep pagemap place m t1 (pdp addr) (pml4 addr ∷ []) t2 m' place1
      → {r : Outcome (ℕ × Machine)}
      → IsNext pagemap place1 m' t2 (pd addr) (pdp addr ∷ pml4 addr ∷ []) r
      → IsTable pagemap m0 addr r
  third_step {m} ok at1 l1 keeps spent claims s (IsNext.no_page few) =
      IsTable.no_page (spent 1 (s.spent 0 few))
  third_step {m} {m'} {t1} {t2} ok at1 l1 keeps spent claims s (IsNext.next t m'' place2 z) =
      let (hi, (hj, rest)) = way-Small addr in
      table t m'' place2 (record {
        paging = z.paging;
        t1 = t1;
        t2 = t2;
        at1 = z.grows t1 (pml4 addr ∷ []) (s.grows t1 (pml4 addr ∷ []) at1);
        at2 = z.grows t2 (pdp addr ∷ pml4 addr ∷ []) s.at;
        at3 = z.at;
        leads = record {
          first =
              z.links pagemap (pml4 addr) t1 [] s.paging.root hi
                (s.links pagemap (pml4 addr) t1 [] ok.root hi l1);
          second =
              z.links t1 (pdp addr) t2 (pml4 addr ∷ []) (s.grows t1 (pml4 addr ∷ []) at1) hj s.now;
          third = z.now;
        };
        keeps = λ a. step_keeps s.paging z a ∙ step_keeps ok s a ∙ keeps a;
        claims = λ j h. claims j (s.claims j (z.claims j h));
      })

  second_step :
      {m : Machine} {place : ℕ → Option Place} {t1 : ℕ}
      → IsStep pagemap place0 m0 pagemap (pml4 addr) [] t1 m place
      → {r : Outcome (ℕ × Machine)} → IsNext pagemap place m t1 (pdp addr) (pml4 addr ∷ []) r
      → IsTable pagemap m0 addr (r >>= λ (t2, m'). get_next_level flags t2 (pd addr) m')
  second_step {m} s (IsNext.no_page few) =
      IsTable.no_page (few_more m0 1 2 (omega arith) (s.spent 0 few))
  second_step s (IsNext.next t2 m' place1 z) =
      third_step s.paging s.at s.now (step_keeps ok0 s) s.spent s.claims z
        (get_next_level-IsNext flags z.paging z.at (omega arith) (way-Small addr).1.1.0)

  first_step :
      {r : Outcome (ℕ × Machine)}
      → IsNext pagemap place0 m0 pagemap (pml4 addr) [] r
      → IsTable pagemap m0 addr (
          r >>= λ (t1, m).
          get_next_level flags t1 (pdp addr) m >>= λ (t2, m'). get_next_level flags t2 (pd addr) m')
  first_step (IsNext.no_page few) = IsTable.no_page (few_more m0 0 2 (omega arith) few)
  first_step (IsNext.next t1 m place s) =
      second_step s (get_next_level-IsNext flags s.paging s.at (omega arith) (way-Small addr).1.0)

  pub page_table-IsTable : IsTable pagemap m0 addr (page_table flags pagemap addr m0)
  unfolding page_table
  page_table-IsTable =
      first_step (get_next_level-IsNext flags ok0 ok0.root (omega arith) (way-Small addr).0)
