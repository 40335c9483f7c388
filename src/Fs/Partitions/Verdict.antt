-- ===== src/Fs/Partitions/Verdict.antt =====
-- What the file system's code says of a partition, by the bytes on the disk.
use griffin.Common.{
  ℕ, zero, suc, ◌+◌, ◌*◌, ◌^◌, ◌≤◌, ◌<◌, ◌≡◌, ◌≢◌, ◌⊎◌, ◌∙◌, ap, ap₂, inl, inr, refl, true, false,
  Bool-cases, Option, none, some, List, get_or, Outcome, done, panic, ◌>>=◌, arith, ◌==◌, ltb,
  dec_lt, ℕ_discrete, u64, ◌<<<◌, if◌then◌else◌,
}
use native.Mathlib.Nat.{pow-le-pow_right, mod-eq_of_lt}
use griffin.Utils.Math.{div_ceil}
use griffin.Utils.Math.Laws.{ceil, div_ceil-done}
use griffin.Fs.Device.{Device}
use griffin.Fs.Ext2.Layout.{superblock_of}
use griffin.Fs.Ext2.Volume.{Ext2Filesystem, new_filesystem}
use griffin.Fs.Ext2.Paths.{ext2_signature, shift_i32, try_and_init}
use griffin.Fs.Partitions.{u64_at}

-- The number in `n` bytes from `i` on, the least significant first.
abbrev pub little : List ℕ → ℕ → ℕ → ℕ
little bs i zero = 0
little bs i (suc n) = little bs i n + 256 ^ n * get_or bs (i + n) 0

pub u64_at-little : (bs : List ℕ) (i : ℕ) → u64_at bs i ≡ little bs i 8
u64_at-little bs i = grind arith

-- The file system of a superblock's bytes.
pub record IsMade (lba : ℕ) (sb : List ℕ) (fs : Ext2Filesystem) : Type 0 where
  pub superblock : fs.superblock ≡ superblock_of sb
  pub starting_lba : fs.starting_lba ≡ lba
  pub block_size : fs.block_size ≡ 1024 * 2 ^ little sb 24 4
  pub block_group_cnt : fs.block_group_cnt ≡ ceil (little sb 4 4) (little sb 32 4)

module _ {World : Type 0} (dev : Device World) (w : World) where
  -- The verdict on a partition, whose superblock lies two sectors behind its start and has its
  -- signature, 0xef53, at byte 56.
  pub data IsTried (lba : ℕ) : Outcome (Option Ext2Filesystem) → Type 0 where
    beyond : 2 ^ 64 ≤ (lba + 2) * 512 → IsTried lba panic
    unreadable : dev.read w ((lba + 2) * 512) 84 ≡ none → IsTried lba (done none)
    foreign :
        (sb : List ℕ)
        → dev.read w ((lba + 2) * 512) 84 ≡ some sb
        → little sb 56 2 ≢ 0xef53
        → IsTried lba (done none)
    broken :
        (sb : List ℕ)
        → dev.read w ((lba + 2) * 512) 84 ≡ some sb
        → little sb 56 2 ≡ 0xef53
        → (32 ≤ little sb 24 4) ⊎ ((little sb 32 4 ≡ 0) ⊎ (2 ^ 64 ≤ little sb 4 4 + little sb 32 4))
        → IsTried lba panic
    accepted :
        (sb : List ℕ) (fs : Ext2Filesystem)
        → dev.read w ((lba + 2) * 512) 84 ≡ some sb
        → little sb 56 2 ≡ 0xef53
        → IsMade lba sb fs
        → IsTried lba (done (some fs))

div_ceil-zero : (x : ℕ) → div_ceil x 0 ≡ panic
unfolding div_ceil
div_ceil-zero x = ground arith

div_ceil-wraps : (x y : ℕ) → 2 ^ 64 ≤ x + y → div_ceil x y ≡ panic
unfolding div_ceil
div_ceil-wraps x y big = ground arith

shifted : (s : ℕ) → s < 32 → u64 (1024 <<< s) ≡ 1024 * 2 ^ s
shifted s small =
    let two : 0 < 2 = omega arith in
    let at_most : s ≤ 32 = omega arith in
    let few : 2 ^ s ≤ 2 ^ 32 = pow-le-pow_right two at_most in mod-eq_of_lt (omega (arith, few))

module _ {World : Type 0} (dev : Device World) (w : World) (lba : ℕ) (sb : List ℕ)
    (found : dev.read w ((lba + 2) * 512) 84 ≡ some sb) (signed : little sb 56 2 ≡ 0xef53) where
  made-IsTried : IsTried dev w lba (do
    shown ← shift_i32 1024 (superblock_of sb).block_size
    fs ← new_filesystem lba (superblock_of sb)
    done (some fs))
  unfolding new_filesystem
  made-IsTried = elim (dec_lt (superblock_of sb).block_size 32) [
    | no large ↦
        let e : ltb (superblock_of sb).block_size 32 ≡ false = ground arith in
        rw e (broken sb found signed (inl (omega arith)))
    | yes small ↦
        let e32 : ltb (superblock_of sb).block_size 32 ≡ true = ground arith in
        let e64 : ltb (superblock_of sb).block_size 64 ≡ true = ground arith in
        let same : (superblock_of sb).block_size ≡ little sb 24 4 = omega arith in
        let same_cnt : (superblock_of sb).block_cnt ≡ little sb 4 4 = omega arith in
        let same_group : (superblock_of sb).blocks_per_group ≡ little sb 32 4 = omega arith in
        elim (ℕ_discrete (superblock_of sb).blocks_per_group 0) [
          | yes no_blocks ↦
              rw (e32, e64, no_blocks, div_ceil-zero (superblock_of sb).block_cnt)
                (broken sb found signed (inr (inl (omega (arith, no_blocks)))))
          | no some_blocks ↦
              elim (dec_lt ((superblock_of sb).block_cnt + (superblock_of sb).blocks_per_group)
                (2 ^ 64)) [
                  | no big ↦
                      rw
                        (
                          e32,
                          e64,
                          div_ceil-wraps (superblock_of sb).block_cnt
                              (superblock_of sb).blocks_per_group (omega arith),
                        )
                        (broken sb found signed (inr (inr (omega arith))))
                  | yes fits ↦
                      rw
                        (
                          e32,
                          e64,
                          div_ceil-done (superblock_of sb).block_cnt
                              (superblock_of sb).blocks_per_group (omega arith) (omega arith),
                        )
                        (accepted sb _ found signed (record {
                          superblock = refl;
                          starting_lba = refl;
                          block_size =
                              shifted (superblock_of sb).block_size small
                              ∙ ap (λ (s : ℕ). 1024 * 2 ^ s) same;
                          block_group_cnt = ap₂ ceil same_cnt same_group;
                        }))
                ]
        ]
  ]

-- `try_and_init` returns that verdict.
pub try_and_init-IsTried :
    {World : Type 0} (dev : Device World) (w : World) (lba : ℕ)
    → IsTried dev w lba (try_and_init dev lba w)
unfolding try_and_init
try_and_init-IsTried dev w lba = elim (dec_lt ((lba + 2) * 512) (2 ^ 64)) [
  | no big ↦ elim (Bool-cases (ltb (lba + 2) (2 ^ 64))) [
    | inl e ↦
        let e2 : ltb ((lba + 2) * 512) (2 ^ 64) ≡ false = ground arith in
        rw (e, e2) (beyond (omega arith))
    | inr e ↦ rw e (beyond (omega arith))
  ]
  | yes small ↦
      let e1 : ltb (lba + 2) (2 ^ 64) ≡ true = ground arith in
      let e2 : ltb ((lba + 2) * 512) (2 ^ 64) ≡ true = ground arith in
      rw (e1, e2) (by_read (dev.read w ((lba + 2) * 512) 84) refl)
]
  where
    by_read :
        (r : Option (List ℕ))
        → dev.read w ((lba + 2) * 512) 84 ≡ r
        → IsTried dev w lba (elim r [
          | none ↦ done none
          | some bytes ↦
              if (superblock_of bytes).signature == ext2_signature
              then (do
                shown ← shift_i32 1024 (superblock_of bytes).block_size
                fs ← new_filesystem lba (superblock_of bytes)
                done (some fs))
              else done none
        ])
    by_read none found = unreadable found
    by_read (some sb) found = elim (Bool-cases ((superblock_of sb).signature == ext2_signature)) [
      | inl e ↦ rw e (made-IsTried dev w lba sb found (ground (arith, e)))
      | inr e ↦ rw e (foreign sb found (λ q. absurd (ground (arith, e, q))))
    ]
