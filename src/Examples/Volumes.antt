-- ===== src/Examples/Volumes.antt =====
-- The inodes of a small volume whose bytes follow a fixed pattern.
use griffin.Common.{
  leb, ◌==◌, if◌then◌else◌, replicate, List, ◌∷◌, ℕ, zero, suc, ◌+◌, ◌*◌, ◌%◌, ◌<◌, refl, some, [],
  get_or, arith,
}
use griffin.Fs.Device.{Device, slice, patch}
use griffin.Fs.Device.Laws.{length-slice}
use griffin.Fs.Ext2.Layout.{superblock_of, descriptor_of}
use griffin.Fs.Ext2.Volume.{Ext2Filesystem, BlockGroup, position, group_position}
use griffin.Fs.Ext2.Alloc.{group_alloc_inode, group_alloc_block}
use griffin.Fs.Ext2.Alloc.Bitmaps.{HasBitmap}
use griffin.Fs.Ext2.Alloc.Blocks.{IsBlockAlloc, group_alloc_block-IsBlockAlloc}
use griffin.Fs.Ext2.Alloc.Inodes.{IsInodeAlloc, group_alloc_inode-IsInodeAlloc}

abbrev volume : Ext2Filesystem
volume = record {
  superblock = record (superblock_of []) { inodes_per_group = 8192; blocks_per_group = 8192 };
  block_size = 1024;
  block_group_cnt = 2;
  starting_lba = 2048;
}

abbrev memory_disk : Device (ℕ → ℕ)
memory_disk = record {
  read = λ w pos n. some (slice w pos n);
  write = λ w pos bs. some (patch w pos bs);
}

abbrev pattern : ℕ → ℕ
pattern a = a % 251

abbrev group : BlockGroup
group = record {
  raw = record (descriptor_of []) { inode_bitmap = 4; unallocated_inodes = 700 };
  index = 1;
}

get_or-pattern : (pos n i : ℕ) → get_or (slice pattern pos n) i 0 < 256
unfolding slice
get_or-pattern pos zero i = omega arith
get_or-pattern pos (suc n) zero = omega arith
get_or-pattern pos (suc n) (suc i) = get_or-pattern (pos + 1) n i

abbrev bitmap_start : ℕ
bitmap_start = 2048 * 512 + 4 * 1024

group-HasBitmap :
    HasBitmap memory_disk volume group 4 8192 pattern bitmap_start (slice pattern bitmap_start 1024)
unfolding position group_position
group-HasBitmap = record {
  at = refl;
  read = refl;
  size = length-slice pattern bitmap_start 1024;
  is_byte = get_or-pattern bitmap_start 1024;
  descriptor = (2048 * 512 + 2048 + 32, refl);
  writable = λ w p out. (patch w p out, refl);
  numbered = omega arith;
}

group_alloc_inode-IsInodeAlloc_example :
    IsInodeAlloc memory_disk volume group pattern bitmap_start
      (slice pattern bitmap_start 1024)
      (group_alloc_inode memory_disk volume group pattern)
group_alloc_inode-IsInodeAlloc_example =
    group_alloc_inode-IsInodeAlloc group-HasBitmap (omega arith)

abbrev block_group : BlockGroup
block_group = record {
  raw = record (descriptor_of []) { block_bitmap = 4; unallocated_blocks = 9 };
  index = 1;
}

block_group-HasBitmap :
    HasBitmap memory_disk volume block_group 4 8192 pattern bitmap_start
      (slice pattern bitmap_start 1024)
unfolding position group_position
block_group-HasBitmap = record {
  at = refl;
  read = refl;
  size = length-slice pattern bitmap_start 1024;
  is_byte = get_or-pattern bitmap_start 1024;
  descriptor = (2048 * 512 + 2048 + 32, refl);
  writable = λ w p out. (patch w p out, refl);
  numbered = omega arith;
}

group_alloc_block-IsBlockAlloc_example :
    IsBlockAlloc memory_disk volume block_group pattern bitmap_start
      (slice pattern bitmap_start 1024)
      (group_alloc_block memory_disk volume block_group 1 pattern)
group_alloc_block-IsBlockAlloc_example =
    group_alloc_block-IsBlockAlloc block_group-HasBitmap (omega arith) (omega arith)

-- A superblock with its signature, and with 16 blocks and 4096 inodes in a group, at byte 1024.
abbrev signed : ℕ → ℕ
signed a =
    if a == 1080
    then 0x53
    else if a == 1081
    then 0xef
    else if leb 1084 a
    then 0
    else if a == 1056
    then 16
    else if a == 1065
    then 16
    else 0

-- A table whose first entry is in use, with the partition that has this superblock, and whose second
-- is not.
abbrev two_entries : List ℕ
two_entries = 1 ∷ replicate 255 0
