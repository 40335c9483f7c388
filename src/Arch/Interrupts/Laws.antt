-- ===== src/Arch/Interrupts/Laws.antt =====
-- The gate encodes the handler's whole address, and `alloc_vector` finds the first free vector.
use griffin.Common.{
  ℕ, zero, suc, ◌+◌, ◌*◌, ◌/◌, ◌^◌, true, ◌∙◌, sym, ap, get_elem?, ◌≤◌, ◌<◌, ◌≡◌, ◌≢◌, refl, Option,
  none, some, arith, Outcome, done, inl, inr, Bool-cases, dec_lt, ==_iff, get_or, length,
  length-set, get_elem?-eq-get_or, get_or-set_self, get_or-set_ne, ltb, ◌==◌,
}
use griffin.Bits.Masks.{bit_and_mask}
use griffin.Arch.Interrupts.{IdtGate, idt_gate, Idt, register_isr, free_vector, alloc_vector}

-- The address that the processor reads from the three fields of a gate.
abbrev pub handler : IdtGate → ℕ
handler g = g.offset1 + g.offset2 * 2 ^ 16 + g.offset3 * 2 ^ 32

-- A gate holds each 64-bit handler address in full.
pub handler-idt_gate :
    (offset ist gate_type selector : ℕ)
    → offset < 2 ^ 64
    → handler (idt_gate offset ist gate_type selector) ≡ offset
handler-idt_gate offset ist gate_type selector h =
    omega (arith, bit_and_mask 16 offset, bit_and_mask 16 (offset / 2 ^ 16))

abbrev pub gate_at : Idt → ℕ → IdtGate
gate_at idt i = get_or idt i (idt_gate 0 0 0 0)

-- The two outcomes of the search of `[lo, hi)`: every gate is in use, or `i` is the first free one.
pub data IsVector (idt : Idt) (lo hi : ℕ) : Outcome (Option ℕ) → Type 0 where
  in_use :
      ((j : ℕ) → lo ≤ j → j < hi → (gate_at idt j).gate_type ≢ 0) → IsVector idt lo hi (done none)
  vacant :
      (i : ℕ)
      → lo ≤ i
      → i < hi
      → (gate_at idt i).gate_type ≡ 0
      → ((j : ℕ) → lo ≤ j → j < i → (gate_at idt j).gate_type ≢ 0)
      → IsVector idt lo hi (done (some i))

IsVector-cons :
    {idt : Idt} {lo hi : ℕ} {r : Outcome (Option ℕ)}
    → (gate_at idt lo).gate_type ≢ 0
    → IsVector idt (lo + 1) hi r
    → IsVector idt lo hi r
IsVector-cons {idt} {lo} first (in_use all) = in_use λ j p q. elim (dec_lt lo j) [
  | yes more ↦ all j (omega arith) q
  | no same ↦ let e : lo ≡ j = omega arith in rw (← e) first
]
IsVector-cons {idt} {lo} first (vacant i p q free all) = vacant i (omega arith) q free λ j p' q'.
    elim (dec_lt lo j) [
      | yes more ↦ all j (omega arith) q'
      | no same ↦ let e : lo ≡ j = omega arith in rw (← e) first
    ]

free_vector-IsVector :
    (idt : Idt) (lo left hi : ℕ)
    → lo + left ≡ hi
    → hi ≤ length idt
    → IsVector idt lo hi (free_vector lo left idt)
unfolding free_vector
free_vector-IsVector idt lo zero hi e h = in_use (λ j p q. absurd (omega arith))
free_vector-IsVector idt lo (suc left) hi e h =
    rw (free_vector, get_elem?-eq-get_or idt lo (idt_gate 0 0 0 0) (omega arith))
      (elim (Bool-cases ((gate_at idt lo).gate_type == 0)) [
        | inl free ↦ rw free (
            vacant lo (omega arith) (omega arith) (ground (arith, free))
              (λ j p q. absurd (omega arith)))
        | inr used ↦ rw used (
            IsVector-cons (ground (arith, used))
              (free_vector-IsVector idt (lo + 1) left hi (omega arith) h))
      ])

-- On the table of 256 gates `alloc_vector` returns the first vector from 32 on whose gate is unset,
-- or nothing where all are set.
pub alloc_vector-IsVector : (idt : Idt) → length idt ≡ 256 → IsVector idt 32 256 (alloc_vector idt)
unfolding alloc_vector
alloc_vector-IsVector idt h = free_vector-IsVector idt 32 224 256 refl (omega arith)

-- A vector of the table that is registered holds the handler, every other gate
-- stays, and `alloc_vector` does not return it again if the gate type is not 0.
pub register_isr-alloc_vector :
    (idt : Idt) (vector addr ist gate_type : ℕ)
    → length idt ≡ 256
    → vector < 256
    → addr < 2 ^ 64
    → gate_type ≢ 0
    → (idt' : Idt) × (register_isr vector addr ist gate_type idt ≡ done idt')
      × (length idt' ≡ 256)
      × (handler (gate_at idt' vector) ≡ addr)
      × ((j : ℕ) → vector ≢ j → gate_at idt' j ≡ gate_at idt j)
      × (alloc_vector idt' ≢ done (some vector))
unfolding register_isr
register_isr-alloc_vector idt vector addr ist gate_type size inside fits typed =
    let new = idt_gate addr ist gate_type 0x8 in
    let idt' = griffin.Common.set idt vector new in
    let here : gate_at idt' vector ≡ new =
      get_or-set_self idt vector new (idt_gate 0 0 0 0) (omega arith) in
    let size' : length idt' ≡ 256 = length-set idt vector new ∙ size in
    let ok : ltb vector (length idt) ≡ true = ground arith in
    (
      idt',
      rw ok refl,
      size',
      rw here (handler-idt_gate addr ist gate_type 0x8 fits),
      λ j ne. get_or-set_ne idt vector j new (idt_gate 0 0 0 0) ne,
      λ e.
          not_again idt' vector (λ free. typed (sym (ap (λ g. g.gate_type) here) ∙ free)) e
            (alloc_vector-IsVector idt' size'),
    )
  where
    not_again :
        (t : Idt) (v : ℕ)
        → (gate_at t v).gate_type ≢ 0
        → {r : Outcome (Option ℕ)} → r ≡ done (some v)
        → IsVector t 32 256 r
        → ⊥
    not_again t v used e (in_use all) = ground arith
    not_again t v used e (vacant i p q free all) =
        let same : i ≡ v = ground arith in used (rw (← same) free)
