-- ===== src/Drivers/Ahci/Setup/Devices.antt =====
-- `AhciDevice::new` gives each slot a command table of its own.
use griffin.Common.{ℕ, zero, suc, ◌+◌, ◌<◌, ◌≡◌, refl, Option, Outcome, done, panic, ◌>>=◌, arith}
use griffin.Arch.Pmm.{Machine}
use griffin.Mm.Flags.{Bitflags}
use griffin.Mm.Vmm.Tables.{Place, IsPaging, FewFree}
use griffin.Drivers.Ahci.Port.{PortRegisters}
use griffin.Drivers.Ahci.Setup.Tables.{AreSetUp, together}
use griffin.Drivers.Ahci.Setup.Slots.{
  HasHeaders, enabled_port, IsSlotSet, IsSlot, slot_set, slot_no_page, setup_slot-IsSlot,
}
use griffin.Drivers.Ahci.Setup.{DeviceRegisters, setup_slot, setup_slots, new_device}

module _ {World : Type 0} (flags : Bitflags) (pagemap : ℕ) (regs : PortRegisters World)
    (base : ℕ) where
  -- The outcomes: all slots are set up, or, after some of them, at most three pages were left.
  pub data IsSetUp (i left : ℕ) (s : World × Machine) : Outcome (World × Machine) → Type 0 where
    set_up :
        (s' : World × Machine)
        → AreSetUp flags pagemap regs base i left s s'
        → IsSetUp i left s (done s')
    no_page :
        (k : ℕ) (s' : World × Machine)
        → k < left
        → setup_slots flags pagemap regs i k s ≡ done s'
        → FewFree 3 s'.1.pmm
        → IsSetUp i left s panic

  -- The slots behind the first.
  slots_after :
      {i left : ℕ} {s s1 : World × Machine} {r : Outcome (World × Machine)}
      → setup_slot flags pagemap regs i s ≡ done s1
      → IsSlotSet flags pagemap regs base i s s1
      → IsSetUp (i + 1) left s1 r
      → IsSetUp i (suc left) s r
  unfolding setup_slots
  slots_after {i} ran f (no_page k s' lt later few) =
      no_page (suc k) s' (omega arith) (rw (setup_slots, ran) later) few
  slots_after {i} {left} ran f (set_up s' t) = set_up s' (together flags pagemap regs base f t)

  setup_slots-IsSetUp :
      (ok : HasHeaders regs base) {place : ℕ → Option Place} (i left : ℕ) (w : World) (m : Machine)
      → IsPaging pagemap place m
      → IsSetUp i left (w, m) (setup_slots flags pagemap regs i left (w, m))
  unfolding setup_slots
  setup_slots-IsSetUp ok {place} i zero w m paging =
      set_up (w, m)
        (record {
          place' = place;
          paging = paging;
          page = λ j. 0;
          points = λ j lo hi. absurd (omega arith);
          low = λ j lo hi. absurd (omega arith);
          was_free = λ j lo hi. absurd (omega arith);
          apart = λ j k lo lt hi. absurd (omega arith);
          is_mapped = λ j lo hi. absurd (omega arith);
          kept = λ a away. refl;
          headers = λ p ne. refl;
          claims = λ j h. h;
        })
  setup_slots-IsSetUp ok i (suc left) w m paging =
      go (λ place' w' m'. setup_slots-IsSetUp ok {place = place'} (i + 1) left w' m')
        (setup_slot-IsSlot flags pagemap regs base ok i w m paging) refl
    where
      go :
          {r : Outcome (World × Machine)}
          → ((place' : ℕ → Option Place) (w' : World) (m' : Machine)
              → IsPaging pagemap place' m'
              → IsSetUp
                  (i + 1)
                  left
                  (w', m')
                  (setup_slots flags pagemap regs (i + 1) left (w', m')))
          → IsSlot flags pagemap regs base i (w, m) r
          → setup_slot flags pagemap regs i (w, m) ≡ r
          → IsSetUp i (suc left) (w, m) (r >>= setup_slots flags pagemap regs (i + 1) left)
      go later (slot_no_page few) e = no_page 0 (w, m) (omega arith) refl few
      go later (slot_set (w', m') f) e = slots_after e f (later f.place' w' m' f.paging)

-- On well-formed tables of the kernel and a port whose command list lies at `base`, `AhciDevice::new`
-- gives each of the 32 slots a command table: a page that was free, different from slot to slot, which
-- the slot's header points to and the kernel sees uncached; every other page translates as before. Or
-- it panics, and then, after some of the slots, at most three pages were free.
pub new_device-IsSetUp :
    {World : Type 0} (flags : Bitflags) {pagemap : ℕ} {place : ℕ → Option Place} {m : Machine}
    (d : DeviceRegisters World) (base : ℕ) (w : World)
    → HasHeaders d.regs base
    → IsPaging pagemap place m
    → IsSetUp flags pagemap d.regs base 0 32
        (enabled_port d w, m)
        (new_device flags pagemap d (w, m))
unfolding new_device
new_device-IsSetUp flags {pagemap} {m} d base w ok paging =
    setup_slots-IsSetUp flags pagemap d.regs base ok 0 32 (enabled_port d w) m paging
