-- ===== src/Fs/Ext2/Layout/Codec.antt =====
-- The structs of the disk are read back as they were written.
use griffin.Common.{
  ℕ, zero, suc, ◌+◌, ◌*◌, ◌/◌, ◌%◌, ◌^◌, ◌<◌, ◌≡◌, refl, sym, ap, ap₂, ◌∙◌, List, [], ◌∷◌, ◌++◌,
  length, get_or, arith,
}
use mathlib.Core.List.{append-nil}
use griffin.Fs.Ext2.Layout.{
  le16, le32, bytes_at, BlockGroupDescriptor, descriptor_of, descriptor_bytes,
}

pub join16 : (x : ℕ) → x < 2 ^ 16 → x % 256 + 256 * (x / 256 % 256) ≡ x
join16 x h = omega arith

pub join32 :
    (x : ℕ)
    → x < 2 ^ 32
    → x % 256 + 256 * (x / 256 % 256) + 65536 * (x / 65536 % 256) + 16777216 * (x / 16777216 % 256)
      ≡ x
join32 x h = omega arith

pub get_or-append :
    (pre xs : List ℕ) (k : ℕ) → get_or (pre ++ xs) (length pre + k) 0 ≡ get_or xs k 0
get_or-append [] xs k = ap (λ (j : ℕ). get_or xs j 0) (omega arith)
get_or-append (p ∷ pre) xs k =
    let e : suc (length pre) + k ≡ suc (length pre + k) = omega arith in
    rw e (get_or-append pre xs k)

pub bytes_at-shift :
    (pre xs : List ℕ) (k n : ℕ) → bytes_at (pre ++ xs) (length pre + k) n ≡ bytes_at xs k n
bytes_at-shift pre xs k zero = refl
bytes_at-shift pre xs k (suc n) =
    ap₂ ◌∷◌ (get_or-append pre xs k)
      (ap (λ (j : ℕ). bytes_at (pre ++ xs) j n) (omega arith) ∙ bytes_at-shift pre xs (k + 1) n)

bytes_at-prefix : (xs rest : List ℕ) → bytes_at (xs ++ rest) 0 (length xs) ≡ xs
bytes_at-prefix [] rest = refl
bytes_at-prefix (x ∷ xs) rest =
    ap (λ (t : List ℕ). x ∷ t)
      (ap (λ (j : ℕ). bytes_at (x ∷ (xs ++ rest)) j (length xs)) (omega arith)
        ∙ bytes_at-shift (x ∷ []) (xs ++ rest) 0 (length xs)
        ∙ bytes_at-prefix xs rest)

-- Bytes in the middle of a list.
pub bytes_at-append :
    (pre xs rest : List ℕ) → bytes_at (pre ++ (xs ++ rest)) (length pre) (length xs) ≡ xs
bytes_at-append pre xs rest =
    ap (λ (j : ℕ). bytes_at (pre ++ (xs ++ rest)) j (length xs)) (omega arith)
    ∙ bytes_at-shift pre (xs ++ rest) 0 (length xs)
    ∙ bytes_at-prefix xs rest

pub record IsDescriptor (g : BlockGroupDescriptor) : Type 0 where
  pub block_bitmap : g.block_bitmap < 2 ^ 32
  pub inode_bitmap : g.inode_bitmap < 2 ^ 32
  pub inode_table : g.inode_table < 2 ^ 32
  pub unallocated_blocks : g.unallocated_blocks < 2 ^ 16
  pub unallocated_inodes : g.unallocated_inodes < 2 ^ 16
  pub directories_cnt : g.directories_cnt < 2 ^ 16
  pub unused : length g.unused ≡ 14

-- A descriptor whose fields fit their widths is read back as it was written.
pub descriptor_of-descriptor_bytes :
    (g : BlockGroupDescriptor) → IsDescriptor g → descriptor_of (descriptor_bytes g) ≡ g
unfolding descriptor_bytes
descriptor_of-descriptor_bytes g ok =
    let head =
      le32 g.block_bitmap
      ++ (le32 g.inode_bitmap
          ++ (le32 g.inode_table
              ++ (le16 g.unallocated_blocks
                  ++ (le16 g.unallocated_inodes ++ le16 g.directories_cnt)))) in
    let tail : bytes_at (head ++ g.unused) 18 14 ≡ g.unused =
      ap (λ (n : ℕ). bytes_at (head ++ g.unused) 18 n) (sym ok.unused)
      ∙ ap (λ (t : List ℕ). bytes_at (head ++ t) 18 (length g.unused)) (sym (append-nil g.unused))
      ∙ bytes_at-append head g.unused [] in
    ground (
      arith,
      tail,
      join32 g.block_bitmap,
      join32 g.inode_bitmap,
      join32 g.inode_table,
      join16 g.unallocated_blocks,
      join16 g.unallocated_inodes,
      join16 g.directories_cnt,
    )
