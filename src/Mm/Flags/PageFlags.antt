-- ===== src/Mm/Flags/PageFlags.antt =====
-- mm/vmm.rs, `PageFlags`: the bits of a page-table entry.
use griffin.Common.{ℕ, ◌<<<◌}

abbrev pub present : ℕ
present = 1 <<< 0

abbrev pub writable : ℕ
writable = 1 <<< 1

abbrev pub usermode : ℕ
usermode = 1 <<< 2

abbrev pub wt : ℕ
wt = 1 <<< 3

abbrev pub uncacheable : ℕ
uncacheable = 1 <<< 4

abbrev pub mmaped : ℕ
mmaped = 1 <<< 9

abbrev pub nx : ℕ
nx = 1 <<< 63
