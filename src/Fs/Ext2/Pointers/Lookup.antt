-- ===== src/Fs/Ext2/Pointers/Lookup.antt =====
-- The tree of a file's blocks as the format defines it: an index below 12 is a direct pointer, and the
-- indices behind are, in turn, one, two and three digits in the base of the addresses in a block.
use griffin.Common.{
  ℕ, ◌+◌, ◌-◌, ◌*◌, ◌/◌, ◌%◌, ◌^◌, ◌≤◌, ◌<◌, ◌≡◌, ◌⊎◌, inl, inr, refl, sym, ap, ◌∙◌, true, false,
  List, [], ◌∷◌, length, get_or, get_elem?-eq-get_or, arith, done, ltb, ◌==◌, Bool-cases,
  if◌then◌else◌,
}
use native.Mathlib.Nat.{div-le_self, mod-le, mul-le-mul_right}
use griffin.Fs.Device.{Device, slice}
use griffin.Fs.Ext2.Layout.{Inode, u32_at}
use griffin.Fs.Ext2.Volume.{Ext2Filesystem}
use griffin.Fs.Ext2.Volume.Laws.{IsVolume, IsReadable, place, position_lem}
use griffin.Fs.Ext2.Pointers.{addresses_per_block, read_entry, doubly, triply, get_block_address}

-- The address in entry `k` of a block.
pub entry : Ext2Filesystem → (ℕ → ℕ) → ℕ → ℕ → ℕ
entry fs bytes block k = u32_at (slice bytes (place fs block (k * 4)) 4) 0

-- The block that a list of entry numbers leads to.
abbrev pub follow : Ext2Filesystem → (ℕ → ℕ) → ℕ → List ℕ → ℕ
follow fs bytes block [] = block
follow fs bytes block (k ∷ ks) = follow fs bytes (entry fs bytes block k) ks

-- The block of an index behind the direct ones, by how many blocks of addresses lead to it.
abbrev pub indirect_block : Ext2Filesystem → (ℕ → ℕ) → Inode → ℕ → ℕ
indirect_block fs bytes n i =
    let p = addresses_per_block fs in
    if ltb i p
    then follow fs bytes n.singly_ip (i ∷ [])
    else (let j = i - p in
        if ltb j (p * p)
        then follow fs bytes n.doubly_ip (j / p ∷ j % p ∷ [])
        else (let k = j - p * p in
            follow fs bytes n.triply_ip (k / (p * p) ∷ k % (p * p) / p ∷ k % (p * p) % p ∷ [])))

abbrev pub file_block : Ext2Filesystem → (ℕ → ℕ) → Inode → ℕ → ℕ
file_block fs bytes n index =
    if ltb index 12 then get_or n.direct_pointer index 0 else indirect_block fs bytes n (index - 12)

pub record IsInode (n : Inode) : Type 0 where
  pub direct : length n.direct_pointer ≡ 12
  pub singly : n.singly_ip < 2 ^ 32
  pub doubly : n.doubly_ip < 2 ^ 32
  pub triply : n.triply_ip < 2 ^ 32
  pub blocks : (i : ℕ) → get_or n.direct_pointer i 0 < 2 ^ 32

module _ {World : Type 0} {dev : Device World} {fs : Ext2Filesystem} {w : World} {bytes : ℕ → ℕ}
    (ok : IsVolume fs) (r : IsReadable dev w bytes) where
  entry-lt : (block k : ℕ) → entry fs bytes block k < 2 ^ 32
  unfolding entry slice
  entry-lt block k =
      let pos = place fs block (k * 4) in
      omega (
        arith,
        r.is_byte pos,
        r.is_byte (pos + 1),
        r.is_byte (pos + 1 + 1),
        r.is_byte (pos + 1 + 1 + 1),
      )

  read_entry_lem :
      (block k : ℕ)
      → block < 2 ^ 32
      → k < 2 ^ 50
      → read_entry dev fs block k w ≡ done (entry fs bytes block k)
  unfolding read_entry entry
  read_entry_lem block k hb hk =
      let p : ltb (k * 4) (2 ^ 64) ≡ true = ground arith in
      rw
        (
          p,
          position_lem ok block (k * 4) hb (omega arith),
          r.reads (place fs block (k * 4)) 4 (omega arith) (omega arith),
        )
        refl

  abbrev p : ℕ
  p = addresses_per_block fs

  doubly_lem :
      (n : Inode) (i : ℕ)
      → IsInode n
      → i < 2 ^ 50
      → doubly dev fs n i w ≡ done (follow fs bytes n.doubly_ip (i / p ∷ i % p ∷ []))
  unfolding doubly
  doubly_lem n i m h =
      let first = read_entry_lem n.doubly_ip (i / p) m.doubly (omega (arith, div-le_self i p)) in
      let second =
        read_entry_lem (entry fs bytes n.doubly_ip (i / p)) (i % p) (entry-lt n.doubly_ip (i / p))
          (omega (arith, mod-le i p)) in
      rw (first, second) refl

  -- The digits of the code, at a base that is not zero.
  triply_lem :
      (n : Inode) (i square : ℕ)
      → IsInode n
      → i < 2 ^ 50
      → 0 < square
      → triply dev fs n i square w
        ≡ done
            (follow fs bytes n.triply_ip (i / square ∷ i % square / 1024 ∷ i % square % 1024 ∷ []))
  unfolding triply
  triply_lem n i square m h pos =
      let z : (square == 0) ≡ false = ground arith in
      let b1 = entry fs bytes n.triply_ip (i / square) in
      let b2 = entry fs bytes b1 (i % square / 1024) in
      let first =
        read_entry_lem n.triply_ip (i / square) m.triply (omega (arith, div-le_self i square)) in
      let second =
        read_entry_lem b1 (i % square / 1024) (entry-lt n.triply_ip (i / square))
          (omega (arith, mod-le i square)) in
      let third =
        read_entry_lem b2 (i % square % 1024) (entry-lt b1 (i % square / 1024)) (omega arith) in
      rw (z, first, second, third) refl

  square_fits : (p * p < 2 ^ 64) × (0 < p * p) × (p * p ≤ 2 ^ 28)
  square_fits =
      let below : p * p ≤ 16384 * p = mul-le-mul_right p (omega (arith, ok.small)) in
      let above : 256 * p ≤ p * p = mul-le-mul_right p (omega (arith, ok.large)) in
      (
        omega (arith, below, ok.small),
        omega (arith, above, ok.large),
        omega (arith, below, ok.small),
      )

  -- Past the doubly indirect blocks the code splits by 1024, which is right for blocks of 4 KiB.
  triply_file_block :
      (n : Inode) (k : ℕ)
      → IsInode n
      → k < 2 ^ 50
      → fs.block_size ≡ 4096
      → triply dev fs n k (p * p) w
        ≡ done (follow fs bytes n.triply_ip (k / (p * p) ∷ k % (p * p) / p ∷ k % (p * p) % p ∷ []))
  triply_file_block n k m h four =
      let e : p ≡ 1024 = omega arith in
      triply_lem n k (p * p) m h square_fits.1
      ∙ ap
          (λ (q : ℕ).
            done
              (follow fs bytes n.triply_ip (k / (p * p) ∷ k % (p * p) / q ∷ k % (p * p) % q ∷ [])))
          (sym e)

  -- On a volume that starts below 2^62 bytes and has blocks of 1 KiB to 64 KiB, where every read
  -- of the disk succeeds, `get_block_address` of an inode with 12 direct pointers returns the
  -- block that the format's tree has at the index, for each index below 2^50 if blocks have 4 KiB,
  -- and otherwise for those that at most two blocks of addresses lead to.
  pub get_block_address-eq-file_block :
      (n : Inode) (index : ℕ)
      → IsInode n
      → index < 2 ^ 50
      → (fs.block_size ≡ 4096) ⊎ (index < 12 + p + p * p)
      → get_block_address dev fs n index w ≡ done (file_block fs bytes n index)
  unfolding get_block_address
  get_block_address-eq-file_block n index m h depth = elim (Bool-cases (ltb index 12)) [
    | inl direct ↦
        rw (direct, get_elem?-eq-get_or n.direct_pointer index 0 (ground (arith, direct, m.direct)))
          refl
    | inr behind ↦ elim (Bool-cases (ltb (index - 12) p)) [
      | inl one ↦
          rw (behind, one, read_entry_lem n.singly_ip (index - 12) m.singly (omega arith)) refl
      | inr more ↦
          let sq : ltb (p * p) (2 ^ 64) ≡ true = ground (arith, square_fits.0) in
          elim (Bool-cases (ltb (index - 12 - p) (p * p))) [
            | inl two ↦
                rw (behind, more, sq, two, doubly_lem n (index - 12 - p) m (omega arith)) refl
            | inr three ↦ elim depth [
              | inl four ↦
                  rw
                    (
                      behind,
                      more,
                      sq,
                      three,
                      triply_file_block n (index - 12 - p - p * p) m (omega arith) four,
                    )
                    refl
              | inr near ↦ absurd (ground (arith, behind, more, three, near))
            ]
          ]
    ]
  ]

  -- The look-up returns some address for each index, whatever the block size.
  pub get_block_address_total :
      (n : Inode) (index : ℕ)
      → IsInode n
      → index < 2 ^ 50
      → (a : ℕ) × (get_block_address dev fs n index w ≡ done a) × (a < 2 ^ 32)
  unfolding get_block_address
  get_block_address_total n index m h = elim (Bool-cases (ltb index 12)) [
    | inl direct ↦ (
      get_or n.direct_pointer index 0,
      rw (direct, get_elem?-eq-get_or n.direct_pointer index 0 (ground (arith, direct, m.direct)))
          refl,
      m.blocks index,
    )
    | inr behind ↦ elim (Bool-cases (ltb (index - 12) p)) [
      | inl one ↦ (
        entry fs bytes n.singly_ip (index - 12),
        rw (behind, one, read_entry_lem n.singly_ip (index - 12) m.singly (omega arith)) refl,
        entry-lt n.singly_ip (index - 12),
      )
      | inr more ↦
          let sq : ltb (p * p) (2 ^ 64) ≡ true = ground (arith, square_fits.0) in
          let j = index - 12 - p in
          elim (Bool-cases (ltb j (p * p))) [
            | inl two ↦ (
              follow fs bytes n.doubly_ip (j / p ∷ j % p ∷ []),
              rw (behind, more, sq, two, doubly_lem n j m (omega arith)) refl,
              entry-lt (entry fs bytes n.doubly_ip (j / p)) (j % p),
            )
            | inr three ↦
                let k = j - p * p in
                let b1 = entry fs bytes n.triply_ip (k / (p * p)) in
                (
                  follow fs bytes n.triply_ip
                      (k / (p * p) ∷ k % (p * p) / 1024 ∷ k % (p * p) % 1024 ∷ []),
                  rw (behind, more, sq, three, triply_lem n k (p * p) m (omega arith) square_fits.1)
                      refl,
                  entry-lt (entry fs bytes b1 (k % (p * p) / 1024)) (k % (p * p) % 1024),
                )
          ]
    ]
  ]
