-- ===== src/Drivers/Ahci/Port/Slots.antt =====
-- Which slot a command gets.
use griffin.Common.{
  ℕ, zero, suc, ◌+◌, ◌≤◌, ◌<◌, ◌≡◌, ◌≢◌, ◌==◌, ==_iff, refl, ap, ◌∙◌, bit_or, true, false, Option,
  none, some, Bool-cases, inl, inr, arith,
}
use griffin.Drivers.Ahci.Port.{PortRegisters, has_bit, find_slot, get_slot}

-- Reads leave the two registers as they are.
pub record IsQuiet {World : Type 0} (regs : PortRegisters World) (w : World) (active issued : ℕ)
    : Type 0 where
  pub sact : regs.sact w ≡ (active, w)
  pub ci : regs.ci w ≡ (issued, w)

-- The first slot from `i` on that neither register has, or none of `left` slots.
pub data IsSlot (word i left : ℕ) : Option ℕ → Type 0 where
  busy : ((j : ℕ) → i ≤ j → j < i + left → has_bit word j ≡ true) → IsSlot word i left none
  free :
      (slot : ℕ)
      → i ≤ slot
      → slot < i + left
      → has_bit word slot ≡ false
      → ((j : ℕ) → i ≤ j → j < slot → has_bit word j ≡ true)
      → IsSlot word i left (some slot)

-- A slot is the first, or another.
with_first :
    (word i : ℕ)
    → has_bit word i ≡ true
    → (j : ℕ) → (j ≢ i → has_bit word j ≡ true)
    → has_bit word j ≡ true
with_first word i used j others = elim (Bool-cases (j == i)) [
  | inl e ↦ ap (has_bit word) ((==_iff j i).0 e) ∙ used
  | inr e ↦ others (λ q. absurd (ground (arith, e, q)))
]

IsSlot-used :
    {word i left : ℕ} {r : Option ℕ}
    → has_bit word i ≡ true
    → IsSlot word (i + 1) left r
    → IsSlot word i (suc left) r
IsSlot-used {word} {i} used (busy all) =
    busy (λ j lo hi. with_first word i used j (λ other. all j (omega arith) (omega arith)))
IsSlot-used {word} {i} used (free slot lo hi clear all) =
    free slot (omega arith) (omega arith) clear
      (λ j lo' hi'. with_first word i used j (λ other. all j (omega arith) (omega arith)))

module _ {World : Type 0} {regs : PortRegisters World} {w : World} {active issued : ℕ}
    (quiet : IsQuiet regs w active issued) where
  find_slot-IsSlot :
      (i left : ℕ)
      → IsSlot (bit_or active issued) i left (find_slot regs i left w).0
        × ((find_slot regs i left w).1 ≡ w)
  unfolding find_slot
  find_slot-IsSlot i zero = (busy (λ j lo hi. absurd (omega arith)), refl)
  find_slot-IsSlot i (suc left) =
      let (rest, same) = find_slot-IsSlot (i + 1) left in
      elim (Bool-cases (has_bit (bit_or active issued) i)) [
        | inl used ↦ rw (quiet.sact, quiet.ci, used) (IsSlot-used used rest, same)
        | inr clear ↦
            rw (quiet.sact, quiet.ci, clear)
              (free i (omega arith) (omega arith) clear (λ j lo hi. absurd (omega arith)), refl)
      ]

  -- While reads leave the two registers as they are, `get_slot` returns the first of the 32 slots that
  -- is set in neither of them, or none where all of them are in use, and changes nothing.
  pub get_slot-IsSlot :
      IsSlot (bit_or active issued) 0 32 (get_slot regs w).0 × ((get_slot regs w).1 ≡ w)
  unfolding get_slot
  get_slot-IsSlot = find_slot-IsSlot 0 32
