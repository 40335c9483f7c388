-- ===== src/Arch/Acpi/Search.antt =====
-- `find_table` returns the first table with the signature.
use griffin.Common.{
  ℕ, zero, suc, ◌+◌, ◌-◌, ◌/◌, ◌≤◌, ◌<◌, ◌≡◌, ◌≢◌, refl, sym, ap₂, ◌∙◌, true, false, Bool-cases,
  inl, inr, Option, none, some, List, [], ◌∷◌, length, done, ◌==◌, leb, if◌then◌else◌, arith,
  ℕ_discrete,
}
use griffin.Arch.Acpi.{
  Rsdp, AcpiMemory, sdt_size, same_signature, search_tables, rsdt_entry, xsdt_entry, find_table,
}

-- The first index from `i` on, below `i + left`, that has the property, as a table.
pub data IsFirst (P : ℕ → Type 0) (table : ℕ → ℕ) (i left : ℕ) : Option ℕ → Type 0 where
  missing : ((j : ℕ) → i ≤ j → j < i + left → ¬ P j) → IsFirst P table i left none
  found :
      (k : ℕ)
      → i ≤ k
      → k < i + left
      → P k
      → ((j : ℕ) → i ≤ j → j < k → ¬ P j)
      → IsFirst P table i left (some (table k))

first_or : (P : ℕ → Type 0) (i : ℕ) → ¬ P i → (j : ℕ) → (j ≢ i → ¬ P j) → ¬ P j
first_or P i fails j others p = elim (ℕ_discrete j i) [
  | yes e ↦ fails (let q : P i = rw (← e) p in q)
  | no other ↦ others other p
]

IsFirst-skip :
    {P : ℕ → Type 0} {table : ℕ → ℕ} {i left : ℕ} {r : Option ℕ}
    → ¬ P i
    → IsFirst P table (i + 1) left r
    → IsFirst P table i (suc left) r
IsFirst-skip {P} {table} {i} fails (missing all) =
    missing (λ j lo hi. first_or P i fails j (λ other. all j (omega arith) (omega arith)))
IsFirst-skip {P} {table} {i} fails (found k lo hi passes all) =
    found k (omega arith) (omega arith) passes
      (λ j lo' hi'. first_or P i fails j (λ other. all j (omega arith) (omega arith)))

-- On lists of one length the code's comparison is equality.
same_signature_refl : (s : List ℕ) → same_signature s s ≡ true
unfolding same_signature
same_signature_refl [] = refl
same_signature_refl (c ∷ s) =
    let here : (c == c) ≡ true = ground arith in rw here (same_signature_refl s)

same_signature-eq : (s t : List ℕ) → length s ≡ length t → same_signature s t ≡ true → s ≡ t
unfolding same_signature
same_signature-eq [] [] e h = refl
same_signature-eq [] (d ∷ t) e h = absurd (omega arith)
same_signature-eq (c ∷ s) [] e h = absurd (omega arith)
same_signature-eq (c ∷ s) (d ∷ t) e h =
    ap₂ (λ (x : ℕ) (xs : List ℕ). x ∷ xs) (ground (arith, h))
      (same_signature-eq s t (omega arith) (ground (arith, h)))

module _ (memory : AcpiMemory) where
  -- The table of an index has the signature, byte for byte.
  abbrev pub HasSignature : (ℕ → ℕ) → List ℕ → ℕ → Type 0
  HasSignature table signature i = (memory.sdt (table i)).signature ≡ signature

  search_tables-IsFirst :
      (table : ℕ → ℕ) (signature : List ℕ)
      → length signature ≡ 4
      → ((a : ℕ) → length (memory.sdt a).signature ≡ 4)
      → (i left : ℕ)
      → IsFirst
          (HasSignature table signature)
          table
          i
          left
          (search_tables memory table signature i left)
  unfolding search_tables
  search_tables-IsFirst table signature four fours i zero =
      missing (λ j lo hi. absurd (omega arith))
  search_tables-IsFirst table signature four fours i (suc left) =
      elim (Bool-cases (same_signature (memory.sdt (table i)).signature signature)) [
        | inl same ↦ rw same (
            found i (omega arith) (omega arith)
              (same_signature-eq (memory.sdt (table i)).signature signature
                (fours (table i) ∙ sym four) same)
              (λ j lo hi. absurd (omega arith)))
        | inr other ↦ rw other (
            IsFirst-skip (differs other)
              (search_tables-IsFirst table signature four fours (i + 1) left))
      ]
    where
      differs : {s : List ℕ} → same_signature s signature ≡ false → ¬ (s ≡ signature)
      differs other e = cc (other, e, same_signature_refl signature)

  -- The root table, the width of its entries and the table of an index, by the revision.
  abbrev pub root : Rsdp → ℕ
  root rsdp = if rsdp.revision == 0 then rsdp.rsdt_addr else rsdp.xsdt_addr

  abbrev pub width : Rsdp → ℕ
  width rsdp = if rsdp.revision == 0 then 4 else 8

  abbrev pub table_at : Rsdp → ℕ → ℕ
  table_at rsdp =
      if rsdp.revision == 0
      then rsdt_entry memory rsdp.rsdt_addr
      else xsdt_entry memory rsdp.xsdt_addr

  -- `find_table` ends without a panic, for a root table that is not shorter than its header, with the
  -- first table in the order of the root table whose four bytes of signature are the four that are asked
  -- for, or none where no table has them; the root table is the RSDT for revision 0 and else the XSDT.
  pub find_table-IsFirst :
      (rsdp : Rsdp) (signature : List ℕ)
      → length signature ≡ 4
      → ((a : ℕ) → length (memory.sdt a).signature ≡ 4)
      → sdt_size ≤ (memory.sdt (root rsdp)).length
      → (r : Option ℕ) × (find_table memory rsdp signature ≡ done r)
        × IsFirst
            (HasSignature (table_at rsdp) signature)
            (table_at rsdp)
            0
            (((memory.sdt (root rsdp)).length - sdt_size) / width rsdp)
            r
  unfolding find_table
  find_table-IsFirst rsdp signature four fours long = elim (Bool-cases (rsdp.revision == 0)) [
    | inl old ↦
        let enough : leb sdt_size (memory.sdt rsdp.rsdt_addr).length ≡ true =
          ground (arith, long, old) in
        rw (old, enough)
          (
            search_tables memory (rsdt_entry memory rsdp.rsdt_addr) signature 0
                (((memory.sdt rsdp.rsdt_addr).length - sdt_size) / 4),
            refl,
            search_tables-IsFirst (rsdt_entry memory rsdp.rsdt_addr) signature four fours 0
                (((memory.sdt rsdp.rsdt_addr).length - sdt_size) / 4),
          )
    | inr new ↦
        let enough : leb sdt_size (memory.sdt rsdp.xsdt_addr).length ≡ true =
          ground (arith, long, new) in
        rw (new, enough)
          (
            search_tables memory (xsdt_entry memory rsdp.xsdt_addr) signature 0
                (((memory.sdt rsdp.xsdt_addr).length - sdt_size) / 8),
            refl,
            search_tables-IsFirst (xsdt_entry memory rsdp.xsdt_addr) signature four fours 0
                (((memory.sdt rsdp.xsdt_addr).length - sdt_size) / 8),
          )
  ]
