-- ===== src/Fs/Ext2/Volume/Stored.antt =====
-- What `flush` writes to the disk is what `get` reads from it.
use griffin.Common.{
  ℕ, ◌≡◌, refl, sym, ap, ◌∙◌, Option, none, some, List, length, done, expect, arith,
}
use griffin.Fs.Device.{Device, IsDisk, patch}
use griffin.Fs.Device.Laws.{slice-patch, slice-ext}
use griffin.Fs.Ext2.Layout.{BlockGroupDescriptor, descriptor_bytes, descriptor_size}
use griffin.Fs.Ext2.Layout.Codec.{IsDescriptor, descriptor_of-descriptor_bytes}
use griffin.Fs.Ext2.Volume.{Ext2Filesystem, BlockGroup, group_position, group_get, group_flush}

length-descriptor_bytes :
    (g : BlockGroupDescriptor) → IsDescriptor g → length (descriptor_bytes g) ≡ descriptor_size
unfolding descriptor_bytes
length-descriptor_bytes g ok = omega (arith, ok.unused)

-- A write that is done was accepted.
pub expect-done : {A : Type 0} (o : Option A) (a : A) → expect o ≡ done a → o ≡ some a
expect-done none a h = absurd cc
expect-done (some b) a h = cc

module _ {World : Type 0} {dev : Device World} {bytes : World → ℕ → ℕ}
    (disk : IsDisk dev bytes) where
  pub read-write :
      (pos : ℕ) (bs out : List ℕ) (w w' : World)
      → dev.write w pos bs ≡ some w'
      → dev.read w' pos (length bs) ≡ some out
      → out ≡ bs
  read-write pos bs out w w' wrote got =
      disk.reads w' pos (length bs) out got
      ∙ slice-ext (bytes w') (patch (bytes w) pos bs) pos (length bs)
          (λ a lo hi. disk.writes w w' pos bs wrote a)
      ∙ slice-patch (bytes w) pos bs

  -- A block group whose descriptor was flushed is read back with the same descriptor, if the fields
  -- fit their widths, on a disk that keeps what is written and for a read that succeeds.
  pub group_get-group_flush :
      (fs : Ext2Filesystem) (g : BlockGroup) (pos : ℕ) (out : List ℕ) (w w' : World)
      → IsDescriptor g.raw
      → group_position fs g.index ≡ done pos
      → group_flush dev fs g w ≡ done w'
      → dev.read w' pos descriptor_size ≡ some out
      → group_get dev fs g.index w' ≡ done g
  unfolding group_get group_flush
  group_get-group_flush fs g pos out w w' ok at flushed got =
      let step : group_flush dev fs g w ≡ expect (dev.write w pos (descriptor_bytes g.raw)) =
        rw at refl in
      let wrote : dev.write w pos (descriptor_bytes g.raw) ≡ some w' =
        expect-done (dev.write w pos (descriptor_bytes g.raw)) w' (sym step ∙ flushed) in
      let size : length (descriptor_bytes g.raw) ≡ descriptor_size =
        length-descriptor_bytes g.raw ok in
      let same : out ≡ descriptor_bytes g.raw =
        read-write pos (descriptor_bytes g.raw) out w w' wrote
          (ap (λ (n : ℕ). dev.read w' pos n) size ∙ got) in
      rw (at, got, same)
        (ap (λ (raw : BlockGroupDescriptor). done (record { raw = raw; index = g.index }))
          (descriptor_of-descriptor_bytes g.raw ok))
