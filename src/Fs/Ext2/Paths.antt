-- ===== src/Fs/Ext2/Paths.antt =====
-- fs/ext2.rs: `open`, `read` and `write` of the file system, its table of open files, and
-- `try_and_init`.
use griffin.Common.{
  ℕ, ◌+◌, true, false, ◌&&◌, Option, none, some, List, [], ◌∷◌, ◌++◌, length, get_elem?,
  set as set_elem, Outcome, done, panic, ◌>>=◌, expect, ◌==◌, if◌then◌else◌, ltb, u32, ◌<<<◌,
  add_checked, mul_checked,
}
use griffin.Mm.Flags.{Bitflags}
use griffin.Fs.Vfs.{Str, slash, FileDescription, description}
use griffin.Fs.Device.{Device}
use griffin.Fs.Ext2.Layout.{superblock_of, superblock_size, Inode}
use griffin.Fs.Ext2.Volume.{Ext2Filesystem, new_filesystem, is_directory, inode_get, inode_flush}
use griffin.Fs.Ext2.Alloc.{alloc_inode}
use griffin.Fs.Ext2.Files.{inode_read, inode_write}
use griffin.Fs.Ext2.Directory.{search, add_entry}

abbrev pub ext2_signature : ℕ
ext2_signature = 0xef53

abbrev pub root_dir_inode : ℕ
root_dir_inode = 2

abbrev pub o_creat : ℕ
o_creat = 100

-- `str::split('/')`: one piece more than there are slashes; `piece` is the one being read.
pub split_from : Str → Str → List Str
split_from piece [] = piece ∷ []
split_from piece (c ∷ s) =
    if c == slash then piece ∷ split_from [] s else split_from (piece ++ (c ∷ [])) s

unfoldable pub split : Str → List Str
unfolding split_from
split s = split_from [] s

-- The disk, and `INODE_TABLE`.
pub record Ext2State (World : Type 0) : Type 0 where
  pub disk : World
  pub table : List (Option Inode)

-- The first free slot of the table.
unfoldable pub free_slot : List (Option Inode) → ℕ → Option ℕ
free_slot [] i = none
free_slot (none ∷ slots) i = some i
free_slot (some n ∷ slots) i = free_slot slots (i + 1)

unfoldable pub new_fd :
    {World : Type 0}
    → Ext2Filesystem
    → Inode
    → ℕ
    → Ext2State World
    → Option (FileDescription Ext2Filesystem) × Ext2State World
unfolding free_slot
new_fd fs n flags st = elim (free_slot st.table 0) [
  | none ↦ (none, st)
  | some i ↦ (some (description i flags fs), record st { table = set_elem st.table i (some n) })
]

-- The bits of `a << n` for an `i32`, as the message on the console has it; a shift by 32 or more is a
-- panic.
abbrev pub shift_i32 : ℕ → ℕ → Outcome ℕ
shift_i32 a n = if ltb n 32 then done (u32 (a <<< n)) else panic

-- `try_and_init`; none is `Err(())`.
unfoldable pub try_and_init :
    {World : Type 0} → Device World → ℕ → World → Outcome (Option Ext2Filesystem)
try_and_init dev starting_lba w = do
  lba ← add_checked starting_lba 2
  pos ← mul_checked lba 512
  elim (dev.read w pos superblock_size) [
    | none ↦ done none
    | some bytes ↦
        if (superblock_of bytes).signature == ext2_signature
        then (do
          shown ← shift_i32 1024 (superblock_of bytes).block_size
          fs ← new_filesystem starting_lba (superblock_of bytes)
          done (some fs))
        else done none
  ]

module _ {World : Type 0} (flag_ops : Bitflags) (dev : Device World) (fs : Ext2Filesystem) where
  open flag_ops use {contains}

  -- The result of a call: a file description, none, and the state.
  abbrev pub Opened : Type 0
  Opened = Outcome (Option (FileDescription Ext2Filesystem) × Ext2State World)

  -- A new file, whose name is the last piece of the path.
  unfoldable pub create : Inode → Str → ℕ → Ext2State World → Opened
  create dir name flags st = do
    (r, w1) ← alloc_inode dev fs st.disk
    addr ← expect r
    fresh ← inode_get dev fs addr w1
    let n = record fresh { type_and_permissions = 0x81ed; ref_cnt = 1 }
    w2 ← inode_flush dev fs n w1
    (added, dir', w3) ← add_entry dev fs dir addr name w2
    if added then done (new_fd fs n flags (record st { disk = w3 })) else panic

  -- The loop of `open` over the pieces of the path that are left, from a directory on.
  unfoldable pub walk : Inode → List Str → ℕ → Ext2State World → Opened
  walk dir [] flags st = done (none, st)
  walk dir ([] ∷ pieces) flags st = walk dir pieces flags st
  walk dir ((c ∷ name) ∷ pieces) flags st = search dev fs dir (c ∷ name) st.disk >>= λ r. elim r [
    | none ↦
        if (length pieces == 0) && contains flags o_creat
        then create dir (c ∷ name) flags st
        else done (none, st)
    | some addr ↦ inode_get dev fs addr st.disk >>= λ entry. elim (length pieces == 0) [
      | true ↦ done (new_fd fs entry flags st)
      | false ↦ elim (is_directory entry) [
        | false ↦ done (none, st)
        | true ↦ walk entry pieces flags st
      ]
    ]
  ]

  unfoldable pub ext2_open : Str → ℕ → ℕ → Ext2State World → Opened
  ext2_open path flags mode st = do
    root_dir ← inode_get dev fs root_dir_inode st.disk
    walk root_dir (split path) flags st

  -- An index that the table has and that is not in use reads nothing.
  unfoldable pub ext2_read : ℕ → List ℕ → ℕ → ℕ → Ext2State World → Outcome (ℕ × List ℕ)
  ext2_read index buffer cnt offset st = expect (get_elem? st.table index) >>= λ slot. elim slot [
    | none ↦ done (0, buffer)
    | some n ↦ inode_read dev fs n offset cnt buffer st.disk >>= λ (r, buffer').
        expect r >>= λ k. done (k, buffer')
  ]

  unfoldable pub ext2_write : ℕ → List ℕ → ℕ → ℕ → Ext2State World → Outcome (ℕ × Ext2State World)
  ext2_write index buffer cnt offset st = expect (get_elem? st.table index) >>= λ slot. elim slot [
    | none ↦ done (0, st)
    | some n ↦ inode_write dev fs n offset cnt buffer st.disk >>= λ (r, n', w').
        expect r >>= λ k. done (k, record { disk = w'; table = set_elem st.table index (some n') })
  ]
