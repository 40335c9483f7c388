-- ===== src/Arch/Acpi.antt =====
-- arch/x86_64/acpi/mod.rs: the search for a table. The firmware's tables are read through `AcpiMemory`.
pub mod Search
use griffin.Common.{
  ℕ, zero, suc, ◌+◌, ◌*◌, ◌/◌, Bool, true, false, ◌&&◌, Option, none, some, List, [], ◌∷◌, Outcome,
  done, panic, ◌>>=◌, ◌==◌, if◌then◌else◌, sub_checked,
}

pub record Rsdp : Type 0 where
  pub revision : ℕ
  pub rsdt_addr : ℕ
  pub xsdt_addr : ℕ

pub record Sdt : Type 0 where
  pub signature : List ℕ
  pub length : ℕ

-- `size_of::<Sdt>()`
abbrev pub sdt_size : ℕ
sdt_size = 36

-- The header at an address, and the words that point to the tables.
pub record AcpiMemory : Type 0 where
  pub sdt : ℕ → Sdt
  pub word32 : ℕ → ℕ
  pub word64 : ℕ → ℕ

-- `Sdt::data_address`
abbrev pub data_address : ℕ → ℕ
data_address sdt = sdt + sdt_size

-- `a.iter().zip(b.iter()).all(|(a, b)| a == b)`
unfoldable pub same_signature : List ℕ → List ℕ → Bool
same_signature [] t = true
same_signature (c ∷ s) [] = true
same_signature (c ∷ s) (d ∷ t) = (c == d) && same_signature s t

module _ (memory : AcpiMemory) where
  -- The loop over the tables, whose addresses `table` gives, at `i` with `left` rounds to go.
  unfoldable pub search_tables : (ℕ → ℕ) → List ℕ → ℕ → ℕ → Option ℕ
  search_tables table signature i zero = none
  search_tables table signature i (suc left) =
      let rest = search_tables table signature (i + 1) left in
      if same_signature (memory.sdt (table i)).signature signature then some (table i) else rest

  abbrev pub rsdt_entry : ℕ → ℕ → ℕ
  rsdt_entry rsdt i = memory.word32 (data_address rsdt + i * 4)

  abbrev pub xsdt_entry : ℕ → ℕ → ℕ
  xsdt_entry xsdt i = memory.word64 (data_address xsdt + i * 8)

  -- The address of the table that has the signature.
  unfoldable pub find_table : Rsdp → List ℕ → Outcome (Option ℕ)
  find_table rsdp signature =
      if rsdp.revision == 0
      then (do
        bytes ← sub_checked (memory.sdt rsdp.rsdt_addr).length sdt_size
        done (search_tables (rsdt_entry rsdp.rsdt_addr) signature 0 (bytes / 4)))
      else (do
        bytes ← sub_checked (memory.sdt rsdp.xsdt_addr).length sdt_size
        done (search_tables (xsdt_entry rsdp.xsdt_addr) signature 0 (bytes / 8)))
