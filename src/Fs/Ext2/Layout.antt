-- ===== src/Fs/Ext2/Layout.antt =====
-- fs/ext2.rs: the structs that lie on the disk, as the bytes that the casts of the source read and
-- write; a packed struct has no gaps and its integers are little-endian.
pub mod Codec
use griffin.Common.{ℕ, zero, suc, ◌+◌, ◌*◌, ◌/◌, ◌%◌, List, [], ◌∷◌, ◌++◌, get_or}

abbrev pub le16 : ℕ → List ℕ
le16 x = x % 256 ∷ x / 256 % 256 ∷ []

abbrev pub le32 : ℕ → List ℕ
le32 x = x % 256 ∷ x / 256 % 256 ∷ x / 65536 % 256 ∷ x / 16777216 % 256 ∷ []

abbrev pub le_words : List ℕ → List ℕ
le_words [] = []
le_words (x ∷ xs) = le32 x ++ le_words xs

abbrev pub u8_at : List ℕ → ℕ → ℕ
u8_at bs i = get_or bs i 0

abbrev pub u16_at : List ℕ → ℕ → ℕ
u16_at bs i = get_or bs i 0 + 256 * get_or bs (i + 1) 0

abbrev pub u32_at : List ℕ → ℕ → ℕ
u32_at bs i =
    get_or bs i 0
    + 256 * get_or bs (i + 1) 0
    + 65536 * get_or bs (i + 2) 0
    + 16777216 * get_or bs (i + 3) 0

abbrev pub bytes_at : List ℕ → ℕ → ℕ → List ℕ
bytes_at bs i zero = []
bytes_at bs i (suc n) = get_or bs i 0 ∷ bytes_at bs (i + 1) n

abbrev pub words_at : List ℕ → ℕ → ℕ → List ℕ
words_at bs i zero = []
words_at bs i (suc n) = u32_at bs i ∷ words_at bs (i + 4) n

pub record Superblock : Type 0 where
  pub inode_cnt : ℕ
  pub block_cnt : ℕ
  pub reserved_blocks_cnt : ℕ
  pub unallocated_blocks : ℕ
  pub unallocated_inodes : ℕ
  pub superblock_block : ℕ
  pub block_size : ℕ
  pub fragment_size : ℕ
  pub blocks_per_group : ℕ
  pub fragments_per_group : ℕ
  pub inodes_per_group : ℕ
  pub last_mt : ℕ
  pub last_wt : ℕ
  pub mount_cnt : ℕ
  pub mounts_bfc : ℕ
  pub signature : ℕ
  pub fs_state : ℕ
  pub handle_error : ℕ
  pub min_version : ℕ
  pub last_cc : ℕ
  pub cc_interval : ℕ
  pub os_id : ℕ
  pub maj_version : ℕ
  pub user_id : ℕ
  pub group_id : ℕ

-- `size_of::<Superblock>()`
abbrev pub superblock_size : ℕ
superblock_size = 84

abbrev pub superblock_of : List ℕ → Superblock
superblock_of bs = record {
  inode_cnt = u32_at bs 0;
  block_cnt = u32_at bs 4;
  reserved_blocks_cnt = u32_at bs 8;
  unallocated_blocks = u32_at bs 12;
  unallocated_inodes = u32_at bs 16;
  superblock_block = u32_at bs 20;
  block_size = u32_at bs 24;
  fragment_size = u32_at bs 28;
  blocks_per_group = u32_at bs 32;
  fragments_per_group = u32_at bs 36;
  inodes_per_group = u32_at bs 40;
  last_mt = u32_at bs 44;
  last_wt = u32_at bs 48;
  mount_cnt = u16_at bs 52;
  mounts_bfc = u16_at bs 54;
  signature = u16_at bs 56;
  fs_state = u16_at bs 58;
  handle_error = u16_at bs 60;
  min_version = u16_at bs 62;
  last_cc = u32_at bs 64;
  cc_interval = u32_at bs 68;
  os_id = u32_at bs 72;
  maj_version = u32_at bs 76;
  user_id = u16_at bs 80;
  group_id = u16_at bs 82;
}

unfoldable pub superblock_bytes : Superblock → List ℕ
superblock_bytes s =
    le32 s.inode_cnt
    ++ le32 s.block_cnt
    ++ le32 s.reserved_blocks_cnt
    ++ le32 s.unallocated_blocks
    ++ le32 s.unallocated_inodes
    ++ le32 s.superblock_block
    ++ le32 s.block_size
    ++ le32 s.fragment_size
    ++ le32 s.blocks_per_group
    ++ le32 s.fragments_per_group
    ++ le32 s.inodes_per_group
    ++ le32 s.last_mt
    ++ le32 s.last_wt
    ++ le16 s.mount_cnt
    ++ le16 s.mounts_bfc
    ++ le16 s.signature
    ++ le16 s.fs_state
    ++ le16 s.handle_error
    ++ le16 s.min_version
    ++ le32 s.last_cc
    ++ le32 s.cc_interval
    ++ le32 s.os_id
    ++ le32 s.maj_version
    ++ le16 s.user_id
    ++ le16 s.group_id

pub record BlockGroupDescriptor : Type 0 where
  pub block_bitmap : ℕ
  pub inode_bitmap : ℕ
  pub inode_table : ℕ
  pub unallocated_blocks : ℕ
  pub unallocated_inodes : ℕ
  pub directories_cnt : ℕ
  pub unused : List ℕ

-- `size_of::<BlockGroupDescriptor>()`
abbrev pub descriptor_size : ℕ
descriptor_size = 32

abbrev pub descriptor_of : List ℕ → BlockGroupDescriptor
descriptor_of bs = record {
  block_bitmap = u32_at bs 0;
  inode_bitmap = u32_at bs 4;
  inode_table = u32_at bs 8;
  unallocated_blocks = u16_at bs 12;
  unallocated_inodes = u16_at bs 14;
  directories_cnt = u16_at bs 16;
  unused = bytes_at bs 18 14;
}

unfoldable pub descriptor_bytes : BlockGroupDescriptor → List ℕ
descriptor_bytes g =
    le32 g.block_bitmap
    ++ le32 g.inode_bitmap
    ++ le32 g.inode_table
    ++ le16 g.unallocated_blocks
    ++ le16 g.unallocated_inodes
    ++ le16 g.directories_cnt
    ++ g.unused

pub record Inode : Type 0 where
  pub type_and_permissions : ℕ
  pub user_id : ℕ
  pub sizel : ℕ
  pub last_access_time : ℕ
  pub creation_time : ℕ
  pub last_mod_time : ℕ
  pub deletion_time : ℕ
  pub group_id : ℕ
  pub ref_cnt : ℕ
  pub sectors_used : ℕ
  pub flags : ℕ
  pub inode_number : ℕ
  pub direct_pointer : List ℕ
  pub singly_ip : ℕ
  pub doubly_ip : ℕ
  pub triply_ip : ℕ
  pub gen_num : ℕ
  pub ext_ab : ℕ
  pub sizeh_dir_acl : ℕ
  pub fragment_block : ℕ
  pub os_specific2 : List ℕ

-- `size_of::<Inode>()`
abbrev pub inode_size : ℕ
inode_size = 128

abbrev pub inode_of : List ℕ → Inode
inode_of bs = record {
  type_and_permissions = u16_at bs 0;
  user_id = u16_at bs 2;
  sizel = u32_at bs 4;
  last_access_time = u32_at bs 8;
  creation_time = u32_at bs 12;
  last_mod_time = u32_at bs 16;
  deletion_time = u32_at bs 20;
  group_id = u16_at bs 24;
  ref_cnt = u16_at bs 26;
  sectors_used = u32_at bs 28;
  flags = u32_at bs 32;
  inode_number = u32_at bs 36;
  direct_pointer = words_at bs 40 12;
  singly_ip = u32_at bs 88;
  doubly_ip = u32_at bs 92;
  triply_ip = u32_at bs 96;
  gen_num = u32_at bs 100;
  ext_ab = u32_at bs 104;
  sizeh_dir_acl = u32_at bs 108;
  fragment_block = u32_at bs 112;
  os_specific2 = words_at bs 116 3;
}

unfoldable pub inode_bytes : Inode → List ℕ
inode_bytes n =
    le16 n.type_and_permissions
    ++ le16 n.user_id
    ++ le32 n.sizel
    ++ le32 n.last_access_time
    ++ le32 n.creation_time
    ++ le32 n.last_mod_time
    ++ le32 n.deletion_time
    ++ le16 n.group_id
    ++ le16 n.ref_cnt
    ++ le32 n.sectors_used
    ++ le32 n.flags
    ++ le32 n.inode_number
    ++ le_words n.direct_pointer
    ++ le32 n.singly_ip
    ++ le32 n.doubly_ip
    ++ le32 n.triply_ip
    ++ le32 n.gen_num
    ++ le32 n.ext_ab
    ++ le32 n.sizeh_dir_acl
    ++ le32 n.fragment_block
    ++ le_words n.os_specific2
