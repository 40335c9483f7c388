-- ===== src/Fs/Ext2/Volume.antt =====
-- fs/ext2.rs: the positions of block groups and inodes on the disk, and their reads and writes.
pub mod Laws
pub mod Stored
use griffin.Common.{
  ℕ, ◌+◌, ◌*◌, ◌%◌, ◌^◌, Outcome, done, panic, ◌>>=◌, expect, bit_and, Bool, not, ◌<<<◌, u64, ltb,
  ◌==◌, if◌then◌else◌, add_checked, sub_checked, mul_checked, div_checked,
}
use griffin.Utils.Math.{div_ceil}
use griffin.Fs.Device.{Device}
use griffin.Fs.Ext2.Layout.{
  Superblock, superblock_of, superblock_size, superblock_bytes, BlockGroupDescriptor, descriptor_of,
  descriptor_size, descriptor_bytes, Inode, inode_of, inode_size, inode_bytes,
}

pub record Ext2Filesystem : Type 0 where
  pub superblock : Superblock
  pub block_size : ℕ
  pub block_group_cnt : ℕ
  pub starting_lba : ℕ

-- `a % b`
abbrev pub mod_checked : ℕ → ℕ → Outcome ℕ
mod_checked a b = if b == 0 then panic else done (a % b)

-- `Ext2Filesystem::new`; a shift by 64 or more panics.
unfoldable pub new_filesystem : ℕ → Superblock → Outcome Ext2Filesystem
new_filesystem starting_lba s = do
  block_size ← (if ltb s.block_size 64 then done (u64 (1024 <<< s.block_size)) else panic)
  block_group_cnt ← div_ceil s.block_cnt s.blocks_per_group
  done (record {
    superblock = s;
    block_size = block_size;
    block_group_cnt = block_group_cnt;
    starting_lba = starting_lba;
  })

-- `starting_lba * 512 + block * block_size + offset`
unfoldable pub position : Ext2Filesystem → ℕ → ℕ → Outcome ℕ
position fs block offset = do
  start ← mul_checked fs.starting_lba 512
  blocks ← mul_checked block fs.block_size
  base ← add_checked start blocks
  add_checked base offset

-- A block group, with its index in the table of descriptors.
pub record BlockGroup : Type 0 where
  pub raw : BlockGroupDescriptor
  pub index : ℕ

abbrev pub bgdt_block : Ext2Filesystem → ℕ
bgdt_block fs = if ltb 1024 fs.block_size then 1 else 2

unfoldable pub group_position : Ext2Filesystem → ℕ → Outcome ℕ
group_position fs index = do
  offset ← mul_checked index descriptor_size
  position fs (bgdt_block fs) offset

unfoldable pub get_block_group : Ext2Filesystem → ℕ → Outcome ℕ
get_block_group fs inode = do n ← sub_checked inode 1; div_checked n fs.superblock.inodes_per_group

unfoldable pub get_table_index : Ext2Filesystem → ℕ → Outcome ℕ
get_table_index fs inode = do n ← sub_checked inode 1; mod_checked n fs.superblock.inodes_per_group

unfoldable pub inode_position : Ext2Filesystem → ℕ → ℕ → Outcome ℕ
inode_position fs inode_table inode = do
  inode_index ← get_table_index fs inode
  offset ← mul_checked inode_index inode_size
  position fs inode_table offset

-- The bits of `vfs::FileType` that the tests look at.
abbrev pub is_directory : Inode → Bool
is_directory n = not (bit_and n.type_and_permissions 0x4000 == 0)

abbrev pub is_regular_file : Inode → Bool
is_regular_file n = not (bit_and n.type_and_permissions 0x8000 == 0)

abbrev pub is_symlink : Inode → Bool
is_symlink n = not (bit_and n.type_and_permissions 0xa000 == 0)

module _ {World : Type 0} (dev : Device World) (fs : Ext2Filesystem) where
  open dev use {read, write}

  unfoldable pub superblock_flush : Superblock → World → Outcome World
  superblock_flush s w = do
    lba ← add_checked fs.starting_lba 2
    pos ← mul_checked lba 512
    expect (write w pos (superblock_bytes s))

  unfoldable pub group_get : ℕ → World → Outcome BlockGroup
  group_get index w = do
    pos ← group_position fs index
    bytes ← expect (read w pos descriptor_size)
    done (record { raw = descriptor_of bytes; index = index })

  unfoldable pub group_flush : BlockGroup → World → Outcome World
  group_flush g w = do
    pos ← group_position fs g.index
    expect (write w pos (descriptor_bytes g.raw))

  unfoldable pub get_inode : BlockGroup → ℕ → World → Outcome Inode
  get_inode g inode_addr w = do
    pos ← inode_position fs g.raw.inode_table inode_addr
    bytes ← expect (read w pos inode_size)
    done (record (inode_of bytes) { inode_number = inode_addr })

  unfoldable pub inode_get : ℕ → World → Outcome Inode
  inode_get inode_addr w = do
    index ← get_block_group fs inode_addr
    g ← group_get index w
    get_inode g inode_addr w

  unfoldable pub inode_flush : Inode → World → Outcome World
  inode_flush n w = do
    index ← get_block_group fs n.inode_number
    g ← group_get index w
    pos ← inode_position fs g.raw.inode_table n.inode_number
    expect (write w pos (inode_bytes n))
