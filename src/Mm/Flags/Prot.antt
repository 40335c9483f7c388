-- ===== src/Mm/Flags/Prot.antt =====
-- mm/vmm.rs, `From<MapProt> for PageFlags`.
use griffin.Common.{ℕ, ◌≡◌, refl, if◌then◌else◌}
use griffin.Bits.Masks.{bit_and-zero}
use griffin.Mm.Flags.{Bitflags}
use griffin.Mm.Flags.PageFlags
use griffin.Mm.Flags.MapProt

module _ (flags : Bitflags) where
  open flags use {contains, union, remove}

  unfoldable pub page_flags : ℕ → ℕ
  page_flags prot =
      if contains prot MapProt.no_access
      then PageFlags.nx
      else let written =
          if contains prot MapProt.write
          then union PageFlags.nx PageFlags.writable
          else PageFlags.nx in
        let read =
          if contains prot MapProt.read then union written PageFlags.usermode else written in
        if contains prot MapProt.exec then remove read PageFlags.nx else read

-- `MapProt::NONE` is 0, which every set contains, so the conversion gives `NX` alone for each
-- protection: no page that is mapped with it is writable, executable or open to user code.
pub page_flags-eq-nx : (flags : Bitflags) (prot : ℕ) → page_flags flags prot ≡ PageFlags.nx
unfolding page_flags
page_flags-eq-nx flags prot =
    rw ((flags.contains_iff prot MapProt.no_access).1 (bit_and-zero prot)) refl
