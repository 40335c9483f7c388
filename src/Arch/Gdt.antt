-- ===== src/Arch/Gdt.antt =====
-- arch/x86_64/gdt.rs: the table of segments. `lgdt`, the reload of the segment registers and `ltr` are
-- instructions; `load_tss` is the table and the selector that `ltr` gets.
pub mod Laws
use griffin.Common.{ℕ, ◌*◌, ◌/◌, ◌%◌, ◌^◌, u8, u16, u32, ◌>>>◌}

pub record GdtDescriptor : Type 0 where
  pub limit : ℕ
  pub offset : ℕ

pub record GdtEntry : Type 0 where
  pub limit1 : ℕ
  pub base1 : ℕ
  pub base2 : ℕ
  pub access : ℕ
  pub flags : ℕ
  pub base3 : ℕ

pub record TssEntry : Type 0 where
  pub limit : ℕ
  pub base1 : ℕ
  pub base2 : ℕ
  pub flags1 : ℕ
  pub flags2 : ℕ
  pub base3 : ℕ
  pub base4 : ℕ
  pub reserved : ℕ

pub record Gdt : Type 0 where
  pub null : GdtEntry
  pub kernel_code : GdtEntry
  pub kernel_data : GdtEntry
  pub user_code : GdtEntry
  pub user_data : GdtEntry
  pub tss : TssEntry

abbrev pub gdt_entry : ℕ → ℕ → GdtEntry
gdt_entry access flags = record {
  limit1 = 0;
  base1 = 0;
  base2 = 0;
  access = access;
  flags = flags;
  base3 = 0;
}

abbrev pub tss_entry : ℕ → ℕ → TssEntry
tss_entry limit flags1 = record {
  limit = limit;
  base1 = 0;
  base2 = 0;
  flags1 = flags1;
  flags2 = 0;
  base3 = 0;
  base4 = 0;
  reserved = 0;
}

unfoldable pub set_base : ℕ → TssEntry → TssEntry
set_base base e = record e {
  base1 = u16 base;
  base2 = u8 (base >>> 16);
  base3 = u8 (base >>> 24);
  base4 = u32 (base >>> 32);
}

-- `GDT`
abbrev pub gdt : Gdt
gdt = record {
  null = gdt_entry 0 0;
  kernel_code = gdt_entry 0x9a 0x20;
  kernel_data = gdt_entry 0x92 0;
  user_code = gdt_entry 0xfa 0x20;
  user_data = gdt_entry 0xf2 0;
  tss = tss_entry 104 0x89;
}

-- `init`, up to `lgdt`; the table's address is an argument.
abbrev pub gdt_descriptor : ℕ → GdtDescriptor
gdt_descriptor address = record { limit = 55; offset = address }

unfoldable pub load_tss : ℕ → Gdt → Gdt × ℕ
load_tss tss_addr g = (record g { tss = set_base tss_addr g.tss }, 0x28)
