-- ===== src/Mm/Flags/MapFlags.antt =====
-- mm/vmm.rs, `MapFlags`.
use griffin.Common.{ℕ}

abbrev pub shared : ℕ
shared = 0x0001

abbrev pub private : ℕ
private = 0x0002

abbrev pub fixed : ℕ
fixed = 0x0010

abbrev pub anonymous : ℕ
anonymous = 0x1000
