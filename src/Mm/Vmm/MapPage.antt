-- ===== src/Mm/Vmm/MapPage.antt =====
-- `map_page` changes the translation of one page, and `get_mapping` reads translations.
use griffin.Common.{
  ℕ, ◌%◌, ◌^◌, ◌<◌, ◌≡◌, refl, ap, sym, ◌∙◌, bit_or, Bool, true, Option, some, [], ◌∷◌, arith,
  Outcome, done, panic, ◌>>=◌, ◌==◌, if◌then◌else◌,
}
use griffin.Utils.Bitmap.Laws.{bit_of}
use griffin.Arch.PhysAddr.{page_size, remove_flags}
use griffin.Arch.PhysAddr.Laws.{remove_flags-bit_or}
use griffin.Arch.Pmm.{Machine}
use griffin.Arch.Memory.{
  load, store, offset, write_word_self, load-slot, load-slot_high, store-slot,
}
use griffin.Mm.Flags.{Bitflags}
use griffin.Mm.VirtAddr.{pml4, pdp, pt, phys_addr}
use griffin.Mm.Vmm.{get_next_level, page_table, map_page, get_mapping}
use griffin.Mm.Vmm.Tables.{target, translate, Place, IsPaging, FewFree, target-some}
use griffin.Mm.Vmm.Walk.{place_of, way-Small, pt-lt, Leads, IsTable, page_table-IsTable}
use griffin.Mm.Vmm.Mapping.{
  page_of, translate-Leads, after, after-IsPaging, after-Leads, translate-after,
}

-- The two outcomes of `map_page`: a machine in which the page of `addr` translates to `v`, every other
-- page translates as before, `get_mapping` reads `v`, and no page became free; or a panic where at most two pages were free.
pub data IsMap (flags : Bitflags) (pagemap : ℕ) (m : Machine) (addr v : ℕ)
    : Outcome Machine → Type 0 where
  mapped :
      (m' : Machine) (place' : ℕ → Option Place)
      → IsPaging pagemap place' m'
      → ((a : ℕ)
          → translate m'.memory pagemap a
            ≡ (if page_of addr == page_of a then v else translate m.memory pagemap a))
      → get_mapping flags pagemap addr m' ≡ done (v, m')
      → ((j : ℕ) → bit_of m'.pmm j ≡ true → bit_of m.pmm j ≡ true)
      → IsMap flags pagemap m addr v (done m')
  no_page : FewFree 2 m.pmm → IsMap flags pagemap m addr v panic

module _ (flags : Bitflags) {pagemap : ℕ} {place : ℕ → Option Place} {m : Machine}
    (ok : IsPaging pagemap place m) where
  -- A table that is there is found, and nothing changes.
  get_next_level-present :
      {curr index t : ℕ} {π : Place}
      → place curr ≡ some π
      → index < 512
      → target (m.memory (offset curr index)) ≡ some t
      → get_next_level flags curr index m ≡ done (t, m)
  unfolding get_next_level
  get_next_level-present {curr} {index} {t} {π} at small leads =
      let (there, same) = target-some (m.memory (offset curr index)) t leads in
      rw (load-slot_high curr index (omega (arith, ok.low curr π at)) m) (ground arith)

  page_table-present :
      {addr t1 t2 t : ℕ}
      → place t1 ≡ some (pml4 addr ∷ [])
      → place t2 ≡ some (pdp addr ∷ pml4 addr ∷ [])
      → Leads m.memory pagemap addr t1 t2 t
      → page_table flags pagemap addr m ≡ done (t, m)
  unfolding page_table
  page_table-present {addr} at1 at2 l =
      let (h4, (h3, (h2, rest))) = way-Small addr in
      rw
        (
          get_next_level-present ok.root h4 l.first,
          get_next_level-present at1 h3 l.second,
          get_next_level-present at2 h2 l.third,
        )
        refl

  get_mapping-present :
      {addr t1 t2 t : ℕ}
      → place t1 ≡ some (pml4 addr ∷ [])
      → place t2 ≡ some (pdp addr ∷ pml4 addr ∷ [])
      → place t ≡ some (place_of addr)
      → Leads m.memory pagemap addr t1 t2 t
      → get_mapping flags pagemap addr m ≡ done (m.memory (offset t (pt addr)), m)
  unfolding get_mapping
  get_mapping-present {addr} {t} at1 at2 at3 l =
      rw
        (
          page_table-present at1 at2 l,
          load-slot t (pt addr) (omega (arith, ok.low t (place_of addr) at3, pt-lt addr)) m,
        )
        refl

-- For every state of well-formed tables: `map_page` maps the page to `phys | flags` and changes no
-- other page, or it panics, and then at most two pages were free.
pub map_page-IsMap :
    (flags : Bitflags) {pagemap : ℕ} {place : ℕ → Option Place} {m : Machine}
    (ok : IsPaging pagemap place m) (addr phys page_flags : ℕ) (flush_prev : Bool)
    → IsMap flags pagemap m addr
        (bit_or phys page_flags)
        (map_page flags pagemap addr phys page_flags flush_prev m)
unfolding map_page
map_page-IsMap flags {pagemap} {m} ok addr phys page_flags flush_prev =
    go (page_table-IsTable flags ok addr)
  where
    v : ℕ
    v = bit_or phys page_flags

    go :
        {r : Outcome (ℕ × Machine)}
        → IsTable pagemap m addr r
        → IsMap flags pagemap m addr v (r >>= λ (t, m'). done (store (offset t (pt addr)) v m'))
    go (IsTable.no_page few) = IsMap.no_page few
    go (IsTable.table t m' place' w) =
        let paging = after-IsPaging w.paging w.at1 w.at2 w.at3 w.leads v in
        let leads = after-Leads w.paging w.at1 w.at2 w.at3 w.leads v in
        rw
          (store-slot t (pt addr) (omega (arith, w.paging.low t (place_of addr) w.at3, pt-lt addr))
            m' v)
          (IsMap.mapped (after w.paging w.at1 w.at2 w.at3 w.leads v) place' paging
            (λ a.
              translate-after w.paging w.at1 w.at2 w.at3 w.leads v a
              ∙ ap (λ (x : ℕ). if page_of addr == page_of a then v else x) (w.keeps a))
            (get_mapping-present flags paging w.at1 w.at2 w.at3 leads
              ∙ ap (λ (x : ℕ). done (x, after w.paging w.at1 w.at2 w.at3 w.leads v))
                  (write_word_self (offset t (pt addr)) v m'.memory))
            w.claims)

-- The two outcomes of `get_mapping`: the entry that the processor would find for the page (0 where a
-- table was missing), with every translation as before; or a panic where at most two pages were free.
pub data IsRead (pagemap : ℕ) (m : Machine) (addr : ℕ) : Outcome (ℕ × Machine) → Type 0 where
  read :
      (m' : Machine) (place' : ℕ → Option Place)
      → IsPaging pagemap place' m'
      → ((a : ℕ) → translate m'.memory pagemap a ≡ translate m.memory pagemap a)
      → IsRead pagemap m addr (done (translate m.memory pagemap addr, m'))
  no_page : FewFree 2 m.pmm → IsRead pagemap m addr panic

-- For every state of well-formed tables: `get_mapping` returns the entry that the address translates
-- to and leaves every translation as it was, or it panics, and then at most two pages were free.
pub get_mapping-IsRead :
    (flags : Bitflags) {pagemap : ℕ} {place : ℕ → Option Place} {m : Machine}
    (ok : IsPaging pagemap place m) (addr : ℕ)
    → IsRead pagemap m addr (get_mapping flags pagemap addr m)
unfolding get_mapping
get_mapping-IsRead flags {pagemap} {m} ok addr = go (page_table-IsTable flags ok addr)
  where
    go :
        {r : Outcome (ℕ × Machine)}
        → IsTable pagemap m addr r
        → IsRead pagemap m addr (r >>= λ (t, m'). done (load (offset t (pt addr)) m', m'))
    go (IsTable.no_page few) = IsRead.no_page few
    go (IsTable.table t m' place' w) =
        let low : offset t (pt addr) < 2 ^ 47 =
          omega (arith, w.paging.low t (place_of addr) w.at3, pt-lt addr) in
        let value : load (offset t (pt addr)) m' ≡ translate m.memory pagemap addr =
          load-slot t (pt addr) low m' ∙ sym (translate-Leads w.leads) ∙ w.keeps addr in
        rw value (IsRead.read m' place' w.paging w.keeps)

-- What is read back of an entry `phys | flags`: the address, where it is aligned and fits, and the
-- flags lie outside the address part.
pub phys_addr-entry :
    (phys page_flags : ℕ)
    → phys % page_size ≡ 0
    → phys < 2 ^ 52
    → remove_flags page_flags ≡ 0
    → phys_addr (bit_or phys page_flags) ≡ phys
unfolding phys_addr
phys_addr-entry phys page_flags aligned fits outside =
    remove_flags-bit_or phys page_flags aligned fits outside

-- With three free pages or more, a page that is mapped to an aligned address reads back that address.
pub phys_addr-map_page :
    (flags : Bitflags) {pagemap : ℕ} {place : ℕ → Option Place} {m : Machine}
    (ok : IsPaging pagemap place m) (addr phys page_flags : ℕ) (flush_prev : Bool)
    → phys % page_size ≡ 0
    → phys < 2 ^ 52
    → remove_flags page_flags ≡ 0
    → ¬ FewFree 2 m.pmm
    → (m' : Machine) × (entry : ℕ) × (map_page flags pagemap addr phys page_flags flush_prev m
        ≡ done m')
      × (get_mapping flags pagemap addr m' ≡ done (entry, m'))
      × (phys_addr entry ≡ phys)
phys_addr-map_page flags {pagemap} {m} ok addr phys page_flags flush_prev aligned fits outside
      enough =
    go (map_page-IsMap flags ok addr phys page_flags flush_prev)
  where
    go :
        {r : Outcome Machine}
        → IsMap flags pagemap m addr (bit_or phys page_flags) r
        → (m' : Machine) × (entry : ℕ) × (r ≡ done m')
          × (get_mapping flags pagemap addr m' ≡ done (entry, m'))
          × (phys_addr entry ≡ phys)
    go (IsMap.no_page few) = absurd (enough few)
    go (IsMap.mapped m' place' paging keeps reads claims) = (
      m',
      bit_or phys page_flags,
      refl,
      reads,
      phys_addr-entry phys page_flags aligned fits outside,
    )
