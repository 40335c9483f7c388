-- ===== src/Examples/Disk.antt =====
-- A small ext2 volume with blocks of 1 KiB, 8 inodes in each group, and disk bytes of a fixed pattern.
use griffin.Common.{
  Option, ℕ, zero, suc, ◌%◌, ◌^◌, ◌<◌, ◌≡◌, sym, ap, inr, refl, some, List, [], ◌∷◌, ◌++◌,
  replicate, get_or, arith, done,
}
use griffin.Fs.Device.{Device, IsDisk, slice, patch}
use griffin.Fs.Ext2.Layout.{
  le32, superblock_of, Inode, inode_of, BlockGroupDescriptor, descriptor_of, descriptor_bytes,
}
use griffin.Fs.Ext2.Layout.Codec.{IsDescriptor}
use griffin.Fs.Ext2.Volume.{
  Ext2Filesystem, BlockGroup, position, group_position, group_get, group_flush,
}
use griffin.Fs.Ext2.Volume.Laws.{IsVolume, IsReadable}
use griffin.Fs.Ext2.Volume.Stored.{group_get-group_flush}
use griffin.Fs.Ext2.Pointers.{get_block_address, set_block_address, set_singly, write_entry}
use griffin.Fs.Ext2.Pointers.Assign.{get_block_address-set_block_address}
use griffin.Fs.Ext2.Pointers.Lookup.{IsInode, file_block, get_block_address-eq-file_block}
use griffin.Fs.Ext2.Files.{inode_read}
use griffin.Fs.Ext2.Files.Reads.{IsRead, inode_read-IsRead}
use griffin.Fs.Ext2.Directory.{search_loop}
use griffin.Fs.Ext2.Directory.Listing.{
  Entry, AllEntries, nil, cons, listing, find_entry, search_loop-eq-find_entry,
}

abbrev volume : Ext2Filesystem
volume = record {
  superblock = record (superblock_of []) { inodes_per_group = 8; blocks_per_group = 8192 };
  block_size = 1024;
  block_group_cnt = 2;
  starting_lba = 2048;
}

volume-IsVolume : IsVolume volume
volume-IsVolume = record {
  start = omega arith;
  large = omega arith;
  small = omega arith;
  grouped = omega arith;
}

-- A memory disk: each access succeeds.
abbrev memory_disk : Device (ℕ → ℕ)
memory_disk = record {
  read = λ w pos n. some (slice w pos n);
  write = λ w pos bs. some (patch w pos bs);
}

abbrev pattern : ℕ → ℕ
pattern a = a % 251

pattern-IsReadable : IsReadable memory_disk pattern pattern
pattern-IsReadable = record { reads = λ pos n some_bytes few. refl; is_byte = λ a. omega arith }

abbrev small_file : Inode
small_file = record (inode_of []) {
  direct_pointer = 20 ∷ 21 ∷ replicate 10 0;
  singly_ip = 40;
  doubly_ip = 41;
  sizel = 3000;
}

get_or-replicate : (n i : ℕ) → get_or (replicate n 0) i 0 < 2 ^ 32
get_or-replicate zero i = omega arith
get_or-replicate (suc n) zero = omega arith
get_or-replicate (suc n) (suc i) = get_or-replicate n i

small_file-blocks : (i : ℕ) → get_or small_file.direct_pointer i 0 < 2 ^ 32
small_file-blocks zero = omega arith
small_file-blocks (suc zero) = omega arith
small_file-blocks (suc (suc i)) = get_or-replicate 10 i

small_file-IsInode : IsInode small_file
small_file-IsInode = record {
  direct = refl;
  singly = omega arith;
  doubly = omega arith;
  triply = omega arith;
  blocks = small_file-blocks;
}

-- Two blocks of addresses lead to block 300 of the file.
get_block_address-eq-file_block_example :
    get_block_address memory_disk volume small_file 300 pattern
    ≡ done (file_block volume pattern small_file 300)
get_block_address-eq-file_block_example =
    get_block_address-eq-file_block volume-IsVolume pattern-IsReadable small_file 300
      small_file-IsInode (omega arith) (inr (omega arith))

inode_read-IsRead_example :
    IsRead 1024 2000
      (replicate 2000 0)
      (inode_read memory_disk volume small_file 100 2000 (replicate 2000 0) pattern)
inode_read-IsRead_example =
    inode_read-IsRead volume-IsVolume pattern-IsReadable small_file small_file-IsInode 100 2000
      (omega arith) (omega arith) (replicate 2000 0) (omega arith)

abbrev group : BlockGroupDescriptor
group = record (descriptor_of []) { block_bitmap = 3; inode_bitmap = 4; unallocated_inodes = 700 }

group-IsDescriptor : IsDescriptor group
group-IsDescriptor = record {
  block_bitmap = omega arith;
  inode_bitmap = omega arith;
  inode_table = omega arith;
  unallocated_blocks = omega arith;
  unallocated_inodes = omega arith;
  directories_cnt = omega arith;
  unused = refl;
}

-- An unused entry, and `ab` with two bytes of padding.
abbrev entries : List Entry
entries =
    record { inode = 0; kind = 0; name = 97 ∷ 98 ∷ []; pad = 0 ∷ 0 ∷ [] }
    ∷ record { inode = 12; kind = 1; name = 97 ∷ 98 ∷ []; pad = 0 ∷ 0 ∷ [] }
    ∷ []

entries_all : AllEntries entries
entries_all =
    cons (record { inode = omega arith; size = omega arith })
      (cons (record { inode = omega arith; size = omega arith }) nil)

search_loop-eq-find_entry_example :
    search_loop (listing entries ++ (0 ∷ [])) 24 (97 ∷ 98 ∷ []) 24 0
    ≡ done (find_entry (97 ∷ 98 ∷ []) entries)
search_loop-eq-find_entry_example =
    search_loop-eq-find_entry (97 ∷ 98 ∷ []) 24 (omega arith) entries [] (0 ∷ []) 24 entries_all
      (omega arith) refl

memory_disk-IsDisk : IsDisk memory_disk (λ w a. w a)
memory_disk-IsDisk = record {
  reads = λ w pos n bs e. cc;
  writes = λ w w' pos bs e a.
      let same : patch w pos bs ≡ w' = some_inj e in ap (λ (v : ℕ → ℕ). v a) (sym same);
}
  where
    some_inj : {v w : ℕ → ℕ} → ◌≡◌ {A = Option (ℕ → ℕ)} (some v) (some w) → v ≡ w
    some_inj e = cc

abbrev second_group : BlockGroup
second_group = record { raw = group; index = 1 }

abbrev flushed : ℕ → ℕ
flushed = patch pattern 1050656 (descriptor_bytes group)

group_get-group_flush_example : group_get memory_disk volume 1 flushed ≡ done second_group
unfolding group_position position group_flush
group_get-group_flush_example =
    group_get-group_flush memory_disk-IsDisk volume second_group 1050656 (slice flushed 1050656 32)
      pattern flushed group-IsDescriptor refl refl refl

-- Block 100 of the file is set through the block of addresses that the file has.
abbrev assigned : ℕ → ℕ
assigned = patch pattern 1089888 (le32 77)

get_block_address-set_block_address_example :
    get_block_address memory_disk volume small_file 100 assigned ≡ done 77
unfolding set_block_address set_singly write_entry position
get_block_address-set_block_address_example =
    get_block_address-set_block_address memory_disk-IsDisk (λ w p n. (slice w p n, refl)) volume
      small_file small_file 100 77 pattern assigned refl (omega arith)
      (inr (omega arith, λ e. absurd (omega (arith, e)))) refl
