-- ===== src/Fs/Ext2/Alloc/Inodes.antt =====
-- A group hands out the first inode that its bitmap has as free, and stores that it is taken.
use native.Mathlib.Nat.{mod-eq_of_lt}
use griffin.Common.{
  ℕ, ◌+◌, ◌-◌, ◌*◌, ◌^◌, ◌<◌, ◌≡◌, refl, true, false, Option, none, some, List, Outcome, done,
  ◌>>=◌, ltb, leb, ◌==◌, if◌then◌else◌, u32, arith,
}
use griffin.Utils.Bitmap.{Bitmap}
use griffin.Utils.Bitmap.Laws.{bit_of, set-IsWrite}
use griffin.Utils.Bitmap.Scan.{AllBits, IsScan, full, hit, find_clear-IsScan}
use griffin.Fs.Device.{Device}
use griffin.Fs.Ext2.Volume.{Ext2Filesystem, BlockGroup, group_flush}
use griffin.Fs.Ext2.Alloc.Bitmaps.{HasBitmap, valid, flush_total}
use griffin.Fs.Ext2.Alloc.{bitmap_of, with_inodes, take_inode, group_alloc_inode}

-- Nothing is free and nothing changes, or the first free inode is taken: its bit and no other is set in
-- the bitmap that is written, and the descriptor with one free inode less is flushed.
pub data IsInodeAlloc {World : Type 0} (dev : Device World) (fs : Ext2Filesystem) (g : BlockGroup)
    (w : World) (pos : ℕ) (bs : List ℕ) : Outcome (Option ℕ × BlockGroup × World) → Type 0 where
  none_free :
      AllBits (bitmap_of fs bs) true 0 (fs.block_size * 8)
      → IsInodeAlloc dev fs g w pos bs (done (none, g, w))
  taken :
      (i : ℕ) (b' : Bitmap) (w' w'' : World)
      → bit_of (bitmap_of fs bs) i ≡ false
      → AllBits (bitmap_of fs bs) true 0 i
      → ((j : ℕ) → bit_of b' j ≡ (if i == j then true else bit_of (bitmap_of fs bs) j))
      → dev.write w pos b'.bytes ≡ some w'
      → group_flush dev fs (with_inodes g (g.raw.unallocated_inodes - 1)) w' ≡ done w''
      → IsInodeAlloc dev fs g w pos bs (
          done (
            some (i + 1 + g.index * fs.superblock.inodes_per_group),
            with_inodes g (g.raw.unallocated_inodes - 1),
            w'',
          ))

module _ {World : Type 0} {dev : Device World} {fs : Ext2Filesystem} {g : BlockGroup} {w : World}
    {pos : ℕ} {bs : List ℕ}
    (has : HasBitmap dev fs g g.raw.inode_bitmap fs.superblock.inodes_per_group w pos bs) where
  take_inode_lem :
      (i : ℕ)
      → i < fs.block_size * 8
      → 0 < g.raw.unallocated_inodes
      → bit_of (bitmap_of fs bs) i ≡ false
      → AllBits (bitmap_of fs bs) true 0 i
      → IsInodeAlloc dev fs g w pos bs (take_inode dev fs g (bitmap_of fs bs) pos w (some i))
  unfolding take_inode
  take_inode_lem i inside some_left clear before =
      let t = set-IsWrite (valid has) i inside in
      let left : leb 1 g.raw.unallocated_inodes ≡ true = ground arith in
      let (w', wrote) = has.writable w pos t.out.bytes in
      let (w'', flushed) = flush_total has (with_inodes g (g.raw.unallocated_inodes - 1)) w' refl in
      let p : ltb (g.index * fs.superblock.inodes_per_group) (2 ^ 64) ≡ true =
        ground (arith, has.numbered) in
      let q : ltb (i + 1 + g.index * fs.superblock.inodes_per_group) (2 ^ 64) ≡ true =
        ground (arith, has.numbered) in
      let n : u32 (i + 1 + g.index * fs.superblock.inodes_per_group)
          ≡ i + 1 + g.index * fs.superblock.inodes_per_group =
        mod-eq_of_lt (omega (arith, has.numbered)) in
      rw (t.returns, left, wrote, flushed, p, q, n)
        (taken i t.out w' w'' clear before t.bits wrote flushed)

  -- A group with free inodes, whose bitmap can be read, on a disk that accepts every write and
  -- where the group's numbers fit 32 bits, hands out the first inode whose bit is clear and stores
  -- the bitmap with that bit set and the descriptor with one free inode less; where no bit is
  -- clear it returns nothing and changes nothing.
  pub group_alloc_inode-IsInodeAlloc :
      0 < g.raw.unallocated_inodes → IsInodeAlloc dev fs g w pos bs (group_alloc_inode dev fs g w)
  unfolding group_alloc_inode take_inode
  group_alloc_inode-IsInodeAlloc some_left =
      let left : (g.raw.unallocated_inodes == 0) ≡ false = ground arith in
      let bits : ltb (fs.block_size * 8) (2 ^ 64) ≡ true = ground (arith, has.numbered) in
      rw (left, has.at, has.read, bits)
        (go (
          find_clear-IsScan (valid has) 0 (fs.block_size * 8) (fs.block_size * 8) (omega arith)
            (omega arith)))
    where
      go :
          {r : Outcome (Option ℕ)}
          → IsScan (bitmap_of fs bs) 0 (fs.block_size * 8) r
          → IsInodeAlloc dev fs g w pos bs (r >>= take_inode dev fs g (bitmap_of fs bs) pos w)
      go (full all) = none_free all
      go (hit i lo hi clear before) = take_inode_lem i hi some_left clear before
