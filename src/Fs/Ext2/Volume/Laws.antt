-- ===== src/Fs/Ext2/Volume/Laws.antt =====
-- Positions do not overflow on a volume of sensible size.
use griffin.Common.{ℕ, ◌+◌, ◌*◌, ◌^◌, ◌≤◌, ◌<◌, ◌≡◌, refl, true, arith, done, ltb, some}
use native.Mathlib.Nat.{mul-le-mul_right}
use griffin.Fs.Device.{Device, slice}
use griffin.Fs.Ext2.Volume.{Ext2Filesystem, position}

-- The volume starts below 2^62 bytes, and its blocks have 1 KiB to 64 KiB.
pub record IsVolume (fs : Ext2Filesystem) : Type 0 where
  pub start : fs.starting_lba < 2 ^ 53
  pub large : 1024 ≤ fs.block_size
  pub small : fs.block_size ≤ 2 ^ 16
  pub grouped : 0 < fs.superblock.inodes_per_group

abbrev pub place : Ext2Filesystem → ℕ → ℕ → ℕ
place fs block offset = fs.starting_lba * 512 + block * fs.block_size + offset

pub position_lem :
    {fs : Ext2Filesystem} (ok : IsVolume fs) (block offset : ℕ)
    → block < 2 ^ 32
    → offset < 2 ^ 60
    → position fs block offset ≡ done (place fs block offset)
unfolding position
position_lem {fs} ok block offset hb ho =
    let few : block * fs.block_size ≤ 2 ^ 32 * fs.block_size =
      mul-le-mul_right fs.block_size (omega arith) in
    let p : ltb (fs.starting_lba * 512) (2 ^ 64) ≡ true = ground (arith, ok.start) in
    let q : ltb (block * fs.block_size) (2 ^ 64) ≡ true = ground (arith, few, ok.small) in
    let r : ltb (fs.starting_lba * 512 + block * fs.block_size) (2 ^ 64) ≡ true =
      ground (arith, few, ok.small, ok.start) in
    let s : ltb (fs.starting_lba * 512 + block * fs.block_size + offset) (2 ^ 64) ≡ true =
      ground (arith, few, ok.small, ok.start) in
    rw (p, q, r, s) refl

-- Every read of the disk of one byte to 64 KiB succeeds and returns its bytes.
pub record IsReadable {World : Type 0} (dev : Device World) (w : World) (bytes : ℕ → ℕ)
    : Type 0 where
  pub reads : (pos n : ℕ) → 0 < n → n ≤ 2 ^ 16 → dev.read w pos n ≡ some (slice bytes pos n)
  pub is_byte : (a : ℕ) → bytes a < 256
