-- ===== src/Fs/Ext2/Alloc/Bitmaps.antt =====
-- What an allocation in a group needs of the disk.
use griffin.Common.{ℕ, ◌+◌, ◌*◌, ◌^◌, ◌<◌, ◌≡◌, refl, some, List, length, get_or, done}
use griffin.Utils.Bitmap.Laws.{IsValid}
use griffin.Fs.Device.{Device}
use griffin.Fs.Ext2.Layout.{descriptor_bytes}
use griffin.Fs.Ext2.Volume.{Ext2Filesystem, BlockGroup, position, group_position, group_flush}
use griffin.Fs.Ext2.Alloc.{bitmap_of}

-- The bitmap in block `block` of the disk, at `pos`, for `per_group` numbers in each group, and the
-- place of the group's descriptor.
pub record HasBitmap {World : Type 0} (dev : Device World) (fs : Ext2Filesystem) (g : BlockGroup)
    (block per_group : ℕ) (w : World) (pos : ℕ) (bs : List ℕ) : Type 0 where
  pub at : position fs block 0 ≡ done pos
  pub read : dev.read w pos fs.block_size ≡ some bs
  pub size : length bs ≡ fs.block_size
  pub is_byte : (i : ℕ) → get_or bs i 0 < 256
  pub descriptor : (group_pos : ℕ) × (group_position fs g.index ≡ done group_pos)
  pub writable : (w1 : World) (p : ℕ) (out : List ℕ) → (w2 : World) × (dev.write w1 p out ≡ some w2)
  pub numbered : fs.block_size * 8 + g.index * per_group < 2 ^ 32

module _ {World : Type 0} {dev : Device World} {fs : Ext2Filesystem} {g : BlockGroup} {w : World}
    {block per_group pos : ℕ} {bs : List ℕ}
    (has : HasBitmap dev fs g block per_group w pos bs) where
  pub valid : IsValid (bitmap_of fs bs)
  valid = record { same_size = has.size; is_byte = has.is_byte }

  pub flush_total :
      (g' : BlockGroup) (w' : World)
      → g'.index ≡ g.index
      → (w'' : World) × (group_flush dev fs g' w' ≡ done w'')
  unfolding group_flush
  flush_total g' w' same =
      let (group_pos, at) = has.descriptor in
      let (w'', wrote) = has.writable w' group_pos (descriptor_bytes g'.raw) in
      (w'', rw (same, at, wrote) refl)
