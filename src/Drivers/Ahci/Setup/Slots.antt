-- ===== src/Drivers/Ahci/Setup/Slots.antt =====
-- What `AhciDevice::new` does for one slot.
use griffin.Common.{
  ℕ, ◌+◌, ◌*◌, ◌^◌, ◌<◌, ◌≡◌, ◌≢◌, ap, ◌∙◌, bit_or, true, false, Option, Outcome, done, panic,
  ◌>>=◌, expect, arith, u32, ◌>>>◌, ◌==◌, if◌then◌else◌, ltb, ◌∷◌, bind_identity_right, Bool-cases,
  inl, inr,
}
use griffin.Utils.Bitmap.Laws.{bit_of}
use griffin.Utils.Math.{div_ceil}
use griffin.Utils.Math.Laws.{div_ceil-done}
use griffin.Arch.PhysAddr.{page_size, phys_base}
use griffin.Arch.Pmm.{Pmm, Machine, calloc, calloc_result}
use griffin.Arch.Pmm.Alloc.{IsClaim, IsAlloc, alloc-IsAlloc}
use griffin.Mm.Flags.{Bitflags}
use griffin.Mm.Vmm.{map_page}
use griffin.Mm.Vmm.Tables.{translate, Place, IsPaging, FewFree}
use griffin.Mm.Vmm.Claims.{claimed, claimed_slot, same-IsPaging, translate-same}
use griffin.Mm.Vmm.Mapping.{page_of}
use griffin.Mm.Vmm.MapPage.{IsMap, map_page-IsMap}
use griffin.Mm.Vmm.Next.Level.{FewFree-none}
use griffin.Drivers.Ahci.Command.{CommandHeader}
use griffin.Drivers.Ahci.Port.{PortRegisters, header_size, get_command_header}
use griffin.Drivers.Ahci.Setup.{
  DeviceRegisters, uncached, map_tables, command_table_size, setup_slot,
}

-- What a port promises of its command list: it lies at `base`, reading its address changes nothing, and
-- headers at different addresses are different cells.
pub record HasHeaders {World : Type 0} (regs : PortRegisters World) (base : ℕ) : Type 0 where
  pub at_base :
      (slot : ℕ) (w : World) → get_command_header regs slot w ≡ done (base + slot * header_size, w)
  pub here : (p : ℕ) (h : CommandHeader) (w : World) → regs.header p (regs.set_header p h w) ≡ h
  pub others :
      (p q : ℕ) (h : CommandHeader) (w : World)
      → p ≢ q
      → regs.header q (regs.set_header p h w) ≡ regs.header q w

-- The physical address that a header holds.
abbrev pub table_address : CommandHeader → ℕ
table_address h = h.ctaddr_lower + h.ctaddr_upper * 2 ^ 32

-- The port with its first interrupt enabled.
abbrev pub enabled_port : {World : Type 0} → DeviceRegisters World → World → World
enabled_port d w =
    let (enabled, w') = d.interrupt_enable w in d.set_interrupt_enable (bit_or enabled 1) w'

-- Where the kernel sees a page.
abbrev pub seen : ℕ → ℕ
seen page = page * page_size + phys_base

module _ {World : Type 0} (flags : Bitflags) (pagemap : ℕ) (regs : PortRegisters World)
    (base : ℕ) where
  -- What one slot does.
  pub record IsSlotSet (i : ℕ) (s s' : World × Machine) : Type 0 where
    pub place' : ℕ → Option Place
    pub paging : IsPaging pagemap place' s'.1
    pub page : ℕ
    pub points : table_address (regs.header (base + i * header_size) s'.0) ≡ page * page_size
    pub low : page * page_size < 2 ^ 47
    pub was_free : bit_of s.1.pmm page ≡ true
    pub is_taken : bit_of s'.1.pmm page ≡ false
    pub translates :
        (a : ℕ)
        → translate s'.1.memory pagemap a ≡ (
            if page_of (seen page) == page_of a
            then bit_or (page * page_size) (uncached flags pagemap)
            else translate s.1.memory pagemap a)
    pub headers : (p : ℕ) → base + i * header_size ≢ p → regs.header p s'.0 ≡ regs.header p s.0
    pub claims : (j : ℕ) → bit_of s'.1.pmm j ≡ true → bit_of s.1.pmm j ≡ true

  pub data IsSlot (i : ℕ) (s : World × Machine) : Outcome (World × Machine) → Type 0 where
    slot_set : (s' : World × Machine) → IsSlotSet i s s' → IsSlot i s (done s')
    slot_no_page : FewFree 3 s.1.pmm → IsSlot i s panic

  -- One page of a table is mapped where the kernel sees it.
  map_tables-page :
      (page : ℕ) (m : Machine)
      → page * page_size < 2 ^ 47
      → map_tables flags pagemap (page * page_size) 0 1 m
        ≡ map_page flags pagemap (seen page) (page * page_size) (uncached flags pagemap) true m
  unfolding map_tables
  map_tables-page page m low =
      let a : ltb (page * page_size + phys_base) (2 ^ 64) ≡ true = ground arith in
      let b : ltb (page * page_size + phys_base + 0) (2 ^ 64) ≡ true = ground arith in
      let c : ltb (page * page_size + 0) (2 ^ 64) ≡ true = ground arith in
      let p : page * page_size + 0 ≡ page * page_size = omega arith in
      let q : seen page + 0 ≡ seen page = omega arith in
      rw (a, b, c, p, q)
        (bind_identity_right
          (map_page flags pagemap (seen page) (page * page_size) (uncached flags pagemap) true m))

  -- The header of a slot, with the address of its table.
  abbrev with_table : ℕ → World → ℕ → World
  with_table i w page =
      regs.set_header (base + i * header_size)
        (record (regs.header (base + i * header_size) w) {
          ctaddr_lower = u32 (page * page_size);
          ctaddr_upper = u32 ((page * page_size) >>> 32);
        })
        w

  module _ (ok : HasHeaders regs base) {place : ℕ → Option Place} (i : ℕ) (w : World) {m : Machine}
      (paging : IsPaging pagemap place m) {page : ℕ} {b' : Pmm} (c : IsClaim m.pmm 1 page b') where
    page-low : page * page_size < 2 ^ 47
    page-low = omega (arith, c.inside, paging.pmm.fits)

    header_points :
        table_address (regs.header (base + i * header_size) (with_table i w page))
        ≡ page * page_size
    header_points =
        let split : u32 (page * page_size) + u32 ((page * page_size) >>> 32) * 2 ^ 32
            ≡ page * page_size =
          omega (arith, page-low) in
        ap table_address (ok.here _ _ w) ∙ split

    mapped_slot :
        {r : Outcome Machine}
        → IsMap flags pagemap
            (claimed paging c)
            (seen page)
            (bit_or (page * page_size) (uncached flags pagemap))
            r
        → IsSlot i (w, m) (r >>= λ m''. done (with_table i w page, m''))
    mapped_slot (IsMap.no_page (l, short, all)) =
        slot_no_page (page ∷ l, omega arith, λ j h. ground (arith, all j, c.bits j))
    mapped_slot (IsMap.mapped m'' place' paging' one reads claims) =
        slot_set (with_table i w page, m'')
          (record {
            place' = place';
            paging = paging';
            page = page;
            points = header_points;
            low = page-low;
            was_free = c.run page (omega arith) (omega arith);
            is_taken = elim (Bool-cases (bit_of m''.pmm page)) [
              | inl free ↦ absurd (ground (arith, claims page free, c.bits page))
              | inr taken ↦ taken
            ];
            translates = λ a.
                one a
                ∙ ap
                    (λ (x : ℕ).
                      if page_of (seen page) == page_of a
                      then bit_or (page * page_size) (uncached flags pagemap)
                      else x)
                    (translate-same paging c (claimed paging c).memory (claimed_slot paging c) a);
            headers = λ p ne. ok.others _ p _ w ne;
            claims = λ j h. ground (arith, claims j h, c.bits j);
          })

  pub setup_slot-IsSlot :
      (ok : HasHeaders regs base) {place : ℕ → Option Place} (i : ℕ) (w : World) (m : Machine)
      → IsPaging pagemap place m
      → IsSlot i (w, m) (setup_slot flags pagemap regs i (w, m))
  unfolding setup_slot calloc
  setup_slot-IsSlot ok {place} i w m paging =
      let one_page : div_ceil command_table_size page_size ≡ done 1 =
        div_ceil-done command_table_size page_size (omega arith) (omega arith) in
      rw (ok.at_base i w, one_page) (go (alloc-IsAlloc paging.pmm 1 (omega arith)))
    where
      go :
          {r : Outcome (Option ℕ × Pmm)}
          → IsAlloc m.pmm 1 r
          → IsSlot i
              (w, m)
              ((r >>= λ p. done (calloc_result 1 m.memory p)) >>= λ (page, m').
                expect page >>= λ cmd_table. map_tables flags pagemap cmd_table 0 1 m' >>= λ m''.
                done (
                  regs.set_header
                      (base + i * header_size)
                      (record (regs.header (base + i * header_size) w) {
                        ctaddr_lower = u32 cmd_table;
                        ctaddr_upper = u32 (cmd_table >>> 32);
                      })
                      w,
                  m'',
                ))
      go (IsAlloc.exhausted no_run) =
          (let (l, short, all) = FewFree-none paging.pmm.valid no_run in
            slot_no_page (l, omega arith, all))
      go (IsAlloc.found page b' c) =
          rw (map_tables-page page (claimed paging c) (page-low ok i w paging c)) (
            mapped_slot ok i w paging c (
              map_page-IsMap flags
                (same-IsPaging paging c (claimed paging c).memory (claimed_slot paging c))
                (seen page) (page * page_size) (uncached flags pagemap) true))
