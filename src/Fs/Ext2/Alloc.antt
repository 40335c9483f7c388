-- ===== src/Fs/Ext2/Alloc.antt =====
-- fs/ext2.rs: the allocation of blocks and inodes from the bitmaps of the groups.
pub mod Bitmaps
pub mod Inodes
pub mod Blocks
use griffin.Common.{
  checked32, ℕ, zero, suc, ◌+◌, ◌*◌, ◌^◌, true, false, Option, none, some, List, [], ◌∷◌, ◌++◌,
  get_elem?, Outcome, done, panic, ◌>>=◌, expect, u32, ltb, ◌==◌, if◌then◌else◌, add_checked,
  sub_checked, mul_checked,
}
use griffin.Utils.Bitmap.{Bitmap, set, is_set, find_clear}
use griffin.Fs.Device.{Device}
use griffin.Fs.Ext2.Volume.{Ext2Filesystem, BlockGroup, position, group_get, group_flush}

-- The buffer of the bitmap, filled from the disk.
abbrev pub bitmap_of : Ext2Filesystem → List ℕ → Bitmap
bitmap_of fs bytes = record { data_ptr = 0; bytes = bytes; size = fs.block_size }

-- What the loop of `alloc_block` changes.
pub record BlockScan : Type 0 where
  pub bitmap : Bitmap
  pub unallocated : ℕ
  pub blocks : List ℕ
  pub allocated : ℕ

unfoldable pub take_block : Ext2Filesystem → ℕ → ℕ → BlockScan → Outcome BlockScan
take_block fs index i st = do
  bitmap ← set st.bitmap i
  base ← checked32 (u32 index * fs.superblock.blocks_per_group)
  block ← checked32 (u32 i + base)
  unallocated ← sub_checked st.unallocated 1
  done (record {
    bitmap = bitmap;
    unallocated = unallocated;
    blocks = st.blocks ++ (block ∷ []);
    allocated = st.allocated + 1;
  })

-- The loop at bit `i` with `left` rounds to go.
unfoldable pub scan_blocks : Ext2Filesystem → ℕ → ℕ → ℕ → ℕ → BlockScan → Outcome BlockScan
scan_blocks fs index block_cnt i zero st = done st
scan_blocks fs index block_cnt i (suc left) st = is_set st.bitmap i >>= λ used. elim used [
  | true ↦ scan_blocks fs index block_cnt (i + 1) left st
  | false ↦ take_block fs index i st >>= λ st'. elim (st'.allocated == block_cnt) [
    | true ↦ done st'
    | false ↦ scan_blocks fs index block_cnt (i + 1) left st'
  ]
]

abbrev pub with_blocks : BlockGroup → ℕ → BlockGroup
with_blocks g n = record g { raw = record g.raw { unallocated_blocks = n } }

abbrev pub with_inodes : BlockGroup → ℕ → BlockGroup
with_inodes g n = record g { raw = record g.raw { unallocated_inodes = n } }

module _ {World : Type 0} (dev : Device World) (fs : Ext2Filesystem) where
  open dev use {read, write}

  -- What follows the loop of `alloc_block`.
  unfoldable pub store_blocks :
      BlockGroup → ℕ → ℕ → World → BlockScan → Outcome (Option (List ℕ) × BlockGroup × World)
  store_blocks g block_cnt pos w st =
      let g' = with_blocks g st.unallocated in
      if st.allocated == block_cnt
      then (do
        w' ← expect (write w pos st.bitmap.bytes)
        w'' ← group_flush dev fs g' w'
        done (some st.blocks, g', w''))
      else done (none, g', w)

  unfoldable pub group_alloc_block :
      BlockGroup → ℕ → World → Outcome (Option (List ℕ) × BlockGroup × World)
  group_alloc_block g block_cnt w =
      if ltb g.raw.unallocated_blocks block_cnt then done (none, g, w) else (do
        pos ← position fs g.raw.block_bitmap 0
        bytes ← expect (read w pos fs.block_size)
        bits ← mul_checked fs.block_size 8
        st ← scan_blocks fs g.index block_cnt 0 bits (record {
          bitmap = bitmap_of fs bytes;
          unallocated = g.raw.unallocated_blocks;
          blocks = [];
          allocated = 0;
        })
        store_blocks g block_cnt pos w st)

  -- The body of the loop of `alloc_inode` at the first clear bit.
  unfoldable pub take_inode :
      BlockGroup → Bitmap → ℕ → World → Option ℕ → Outcome (Option ℕ × BlockGroup × World)
  take_inode g bitmap pos w none = done (none, g, w)
  take_inode g bitmap pos w (some i) = do
    bitmap' ← set bitmap i
    unallocated ← sub_checked g.raw.unallocated_inodes 1
    w' ← expect (write w pos bitmap'.bytes)
    w'' ← group_flush dev fs (with_inodes g unallocated) w'
    base ← mul_checked g.index fs.superblock.inodes_per_group
    n ← add_checked (i + 1) base
    done (some (u32 n), with_inodes g unallocated, w'')

  unfoldable pub group_alloc_inode : BlockGroup → World → Outcome (Option ℕ × BlockGroup × World)
  group_alloc_inode g w = if g.raw.unallocated_inodes == 0 then done (none, g, w) else (do
    pos ← position fs g.raw.inode_bitmap 0
    bytes ← expect (read w pos fs.block_size)
    bits ← mul_checked fs.block_size 8
    found ← find_clear (bitmap_of fs bytes) 0 bits
    take_inode g (bitmap_of fs bytes) pos w found)

  -- `for bg in bg..bg + left`
  unfoldable pub alloc_in_groups :
      (BlockGroup → World → Outcome (Option ℕ × BlockGroup × World))
      → ℕ
      → ℕ
      → World
      → Outcome (Option ℕ × World)
  alloc_in_groups alloc bg zero w = done (none, w)
  alloc_in_groups alloc bg (suc left) w = group_get dev fs bg w >>= λ g.
      alloc g w >>= λ (r, g', w'). elim r [
        | none ↦ alloc_in_groups alloc (bg + 1) left w'
        | some n ↦ done (some n, w')
      ]

  -- `block_group.alloc_block(1)`, and the first of the blocks
  unfoldable pub alloc_one : BlockGroup → World → Outcome (Option ℕ × BlockGroup × World)
  alloc_one g w = group_alloc_block g 1 w >>= λ (r, g', w'). elim r [
    | none ↦ done (none, g', w')
    | some blocks ↦ expect (get_elem? blocks 0) >>= λ b. done (some b, g', w')
  ]

  unfoldable pub alloc_block : World → Outcome (Option ℕ × World)
  alloc_block w =
      if fs.superblock.unallocated_blocks == 0
      then done (none, w)
      else alloc_in_groups alloc_one 0 fs.block_group_cnt w

  unfoldable pub alloc_inode : World → Outcome (Option ℕ × World)
  alloc_inode w =
      if fs.superblock.unallocated_inodes == 0
      then done (none, w)
      else alloc_in_groups group_alloc_inode 0 fs.block_group_cnt w
