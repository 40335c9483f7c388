-- ===== src/Mm/Flags/MapProt.antt =====
-- mm/vmm.rs, `MapProt`: the protection that `mmap` is asked for.
use griffin.Common.{ℕ}

abbrev pub no_access : ℕ
no_access = 0x0

abbrev pub read : ℕ
read = 0x1

abbrev pub write : ℕ
write = 0x2

abbrev pub exec : ℕ
exec = 0x4
