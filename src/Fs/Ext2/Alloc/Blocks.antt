-- ===== src/Fs/Ext2/Alloc/Blocks.antt =====
-- A group hands out the first block that its bitmap has as free.
use native.Mathlib.Nat.{mod-eq_of_lt}
use griffin.Common.{
  ℕ, zero, suc, ◌+◌, ◌-◌, ◌*◌, ◌^◌, ◌<◌, ◌≡◌, refl, true, false, Option, none, some, List, [], ◌∷◌,
  Outcome, done, ◌>>=◌, ltb, leb, ◌==◌, if◌then◌else◌, u32, arith, Bool-cases, inl, inr,
}
use griffin.Utils.Bitmap.{Bitmap}
use griffin.Utils.Bitmap.Laws.{bit_of, IsValid, set-IsWrite, is_set_lem}
use griffin.Utils.Bitmap.Scan.{AllBits, AllBits-cons}
use griffin.Fs.Device.{Device}
use griffin.Fs.Ext2.Volume.{Ext2Filesystem, BlockGroup, group_flush}
use griffin.Fs.Ext2.Alloc.{
  BlockScan, take_block, scan_blocks, bitmap_of, with_blocks, store_blocks, group_alloc_block,
}
use griffin.Fs.Ext2.Alloc.Bitmaps.{HasBitmap, valid, flush_total}

-- A scan for one block: it ends as it began where all bits are set, or with the first clear one.
pub data IsBlockScan (fs : Ext2Filesystem) (index i hi : ℕ) (st : BlockScan)
    : Outcome BlockScan → Type 0 where
  none_free : AllBits st.bitmap true i hi → IsBlockScan fs index i hi st (done st)
  taken :
      (k : ℕ) (b' : Bitmap)
      → k < hi
      → bit_of st.bitmap k ≡ false
      → AllBits st.bitmap true i k
      → ((j : ℕ) → bit_of b' j ≡ (if k == j then true else bit_of st.bitmap j))
      → IsBlockScan fs index i hi st (
          done (record {
            bitmap = b';
            unallocated = st.unallocated - 1;
            blocks = (k + index * fs.superblock.blocks_per_group) ∷ [];
            allocated = 1;
          }))

IsBlockScan-cons :
    {fs : Ext2Filesystem} {index i hi : ℕ} {st : BlockScan} {r : Outcome BlockScan}
    → bit_of st.bitmap i ≡ true
    → IsBlockScan fs index (i + 1) hi st r
    → IsBlockScan fs index i hi st r
IsBlockScan-cons {st} used (none_free all) = none_free (AllBits-cons st.bitmap true used all)
IsBlockScan-cons {st} used (taken k b' inside clear before bits) =
    taken k b' inside clear (AllBits-cons st.bitmap true used before) bits

-- The state before the loop.
abbrev pub start_scan : Bitmap → ℕ → BlockScan
start_scan b unallocated = record {
  bitmap = b;
  unallocated = unallocated;
  blocks = [];
  allocated = 0;
}

module _ (fs : Ext2Filesystem) (index : ℕ) {b : Bitmap} (unallocated : ℕ) (ok : IsValid b)
    (some_left : 0 < unallocated)
    (numbered : b.size * 8 + index * fs.superblock.blocks_per_group < 2 ^ 32)
    (low : index < 2 ^ 32) where
  take_first :
      (i : ℕ)
      → i < b.size * 8
      → bit_of b i ≡ false
      → (b' : Bitmap) × ((j : ℕ) → bit_of b' j ≡ (if i == j then true else bit_of b j))
        × (take_block fs index i (start_scan b unallocated)
            ≡ done (record {
              bitmap = b';
              unallocated = unallocated - 1;
              blocks = (i + index * fs.superblock.blocks_per_group) ∷ [];
              allocated = 1;
            }))
  unfolding take_block
  take_first i inside clear =
      let t = set-IsWrite ok i inside in
      let left : leb 1 unallocated ≡ true = ground arith in
      let p : ltb (index * fs.superblock.blocks_per_group) (2 ^ 32) ≡ true = ground arith in
      let q : ltb (i + index * fs.superblock.blocks_per_group) (2 ^ 32) ≡ true = ground arith in
      let low_i : u32 i ≡ i = mod-eq_of_lt (omega arith) in
      let low_index : u32 index ≡ index = mod-eq_of_lt low in
      (t.out, t.bits, rw (t.returns, low_index, p, low_i, q, left) refl)

  scan_blocks-IsBlockScan :
      (i left : ℕ)
      → i + left ≡ b.size * 8
      → IsBlockScan fs index i
          (b.size * 8)
          (start_scan b unallocated)
          (scan_blocks fs index 1 i left (start_scan b unallocated))
  unfolding scan_blocks
  scan_blocks-IsBlockScan i zero e = none_free (λ j lo hi. absurd (omega arith))
  scan_blocks-IsBlockScan i (suc left) e = elim (Bool-cases (bit_of b i)) [
    | inl used ↦
        rw (scan_blocks, is_set_lem ok i (omega arith), used)
          (IsBlockScan-cons used (scan_blocks-IsBlockScan (i + 1) left (omega arith)))
    | inr clear ↦
        let (b', bits, took) = take_first i (omega arith) clear in
        rw (scan_blocks, is_set_lem ok i (omega arith), clear, took)
          (taken i b' (omega arith) clear (λ j lo hi. absurd (omega arith)) bits)
  ]

-- Nothing is free and nothing changes, or the first free block is taken: its bit and no other is set in
-- the bitmap that is written, and the descriptor with one free block less is flushed.
pub data IsBlockAlloc {World : Type 0} (dev : Device World) (fs : Ext2Filesystem) (g : BlockGroup)
    (w : World) (pos : ℕ) (bs : List ℕ)
    : Outcome (Option (List ℕ) × BlockGroup × World) → Type 0 where
  no_block :
      AllBits (bitmap_of fs bs) true 0 (fs.block_size * 8)
      → IsBlockAlloc dev fs g w pos bs (done (none, g, w))
  block :
      (i : ℕ) (b' : Bitmap) (w' w'' : World)
      → bit_of (bitmap_of fs bs) i ≡ false
      → AllBits (bitmap_of fs bs) true 0 i
      → ((j : ℕ) → bit_of b' j ≡ (if i == j then true else bit_of (bitmap_of fs bs) j))
      → dev.write w pos b'.bytes ≡ some w'
      → group_flush dev fs (with_blocks g (g.raw.unallocated_blocks - 1)) w' ≡ done w''
      → IsBlockAlloc dev fs g w pos bs (
          done (
            some ((i + g.index * fs.superblock.blocks_per_group) ∷ []),
            with_blocks g (g.raw.unallocated_blocks - 1),
            w'',
          ))

module _ {World : Type 0} {dev : Device World} {fs : Ext2Filesystem} {g : BlockGroup} {w : World}
    {pos : ℕ} {bs : List ℕ}
    (has : HasBitmap dev fs g g.raw.block_bitmap fs.superblock.blocks_per_group w pos bs) where
  stored :
      {r : Outcome BlockScan}
      → IsBlockScan fs g.index 0
          (fs.block_size * 8)
          (start_scan (bitmap_of fs bs) g.raw.unallocated_blocks)
          r
      → IsBlockAlloc dev fs g w pos bs (r >>= store_blocks dev fs g 1 pos w)
  unfolding store_blocks
  stored (none_free all) = no_block all
  stored (taken k b' inside clear before bits) =
      let (w', wrote) = has.writable w pos b'.bytes in
      let (w'', flushed) = flush_total has (with_blocks g (g.raw.unallocated_blocks - 1)) w' refl in
      rw (wrote, flushed) (block k b' w' w'' clear before bits wrote flushed)

  -- A group with free blocks, whose bitmap can be read, on a disk that accepts every write and
  -- where the group's index and numbers fit 32 bits, hands out for one block the first whose bit
  -- is clear, as the number of its bit plus those of the groups before, and stores the bitmap with
  -- that bit set and the descriptor with one free block less; where no bit is clear it returns
  -- nothing and changes nothing.
  pub group_alloc_block-IsBlockAlloc :
      0 < g.raw.unallocated_blocks
      → g.index < 2 ^ 32
      → IsBlockAlloc dev fs g w pos bs (group_alloc_block dev fs g 1 w)
  unfolding group_alloc_block
  group_alloc_block-IsBlockAlloc some_left low =
      let enough : ltb g.raw.unallocated_blocks 1 ≡ false = ground arith in
      let bits : ltb (fs.block_size * 8) (2 ^ 64) ≡ true = ground (arith, has.numbered) in
      rw (enough, has.at, has.read, bits)
        (stored (
          scan_blocks-IsBlockScan fs g.index g.raw.unallocated_blocks (valid has) some_left
            has.numbered low 0 (fs.block_size * 8) (omega arith)))
