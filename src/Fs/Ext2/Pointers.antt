-- ===== src/Fs/Ext2/Pointers.antt =====
-- fs/ext2.rs: `get_block_address`, `set_block_address` and `resize`.
pub mod Lookup
pub mod Assign
use griffin.Common.{
  ℕ, zero, suc, ◌+◌, ◌-◌, ◌*◌, ◌/◌, ◌%◌, Option, List, get_elem?, set as set_elem, Outcome, done,
  panic, ◌>>=◌, expect, u32, ltb, ◌==◌, if◌then◌else◌, mul_checked, div_checked,
}
use griffin.Utils.Math.{div_ceil}
use griffin.Fs.Device.{Device}
use griffin.Fs.Ext2.Layout.{Inode, le32, u32_at}
use griffin.Fs.Ext2.Volume.{Ext2Filesystem, mod_checked, position, inode_flush}
use griffin.Fs.Ext2.Alloc.{alloc_block}

abbrev pub addresses_per_block : Ext2Filesystem → ℕ
addresses_per_block fs = fs.block_size / 4

module _ {World : Type 0} (dev : Device World) (fs : Ext2Filesystem) where
  open dev use {read, write}

  -- Entry `k` of a block of addresses.
  unfoldable pub read_entry : ℕ → ℕ → World → Outcome ℕ
  read_entry block k w = do
    offset ← mul_checked k 4
    pos ← position fs block offset
    bytes ← expect (read w pos 4)
    done (u32_at bytes 0)

  unfoldable pub write_entry : ℕ → ℕ → ℕ → World → Outcome World
  write_entry block k value w = do
    offset ← mul_checked k 4
    pos ← position fs block offset
    expect (write w pos (le32 value))

  unfoldable pub doubly : Inode → ℕ → World → Outcome ℕ
  doubly n i w = do
    indirect ← read_entry n.doubly_ip (i / addresses_per_block fs) w
    read_entry indirect (i % addresses_per_block fs) w

  unfoldable pub triply : Inode → ℕ → ℕ → World → Outcome ℕ
  triply n i square w = do
    base ← mod_checked i square
    top ← div_checked i square
    indirect1 ← read_entry n.triply_ip top w
    indirect2 ← read_entry indirect1 (base / 1024) w
    read_entry indirect2 (base % 1024) w

  unfoldable pub get_block_address : Inode → ℕ → World → Outcome ℕ
  get_block_address n block_index w =
      if ltb block_index 12
      then expect (get_elem? n.direct_pointer block_index)
      else (let i = block_index - 12 in
          if ltb i (addresses_per_block fs)
          then read_entry n.singly_ip i w
          else (let j = i - addresses_per_block fs in
              mul_checked (addresses_per_block fs) (addresses_per_block fs) >>= λ square.
              if ltb j square then doubly n j w else triply n (j - square) square w))

  -- `fs.alloc_block().expect(…)`
  unfoldable pub new_block : World → Outcome (ℕ × World)
  new_block w = do (r, w') ← alloc_block dev fs w; b ← expect r; done (b, w')

  unfoldable pub set_direct : Inode → ℕ → ℕ → World → Outcome (Inode × World)
  set_direct n i address w =
      let n' = record n { direct_pointer = set_elem n.direct_pointer i address } in
      inode_flush dev fs n' w >>= λ w'. done (n', w')

  -- The block of addresses is allocated if it is missing.
  unfoldable pub set_singly : Inode → ℕ → ℕ → World → Outcome (Inode × World)
  set_singly n i address w = do
    (n', w') ←
        (if n.singly_ip == 0
          then (do
            (b, w1) ← new_block w
            w2 ← inode_flush dev fs (record n { singly_ip = b }) w1
            done (record n { singly_ip = b }, w2))
          else done (n, w))
    w'' ← write_entry n'.singly_ip i address w'
    done (n', w'')

  -- If the block is missing, it and the block of the entry are allocated.
  unfoldable pub set_doubly : Inode → ℕ → ℕ → World → Outcome (Inode × World)
  set_doubly n i address w = do
    (indirect, n', w') ←
        (if n.doubly_ip == 0
          then (do
            (b, w1) ← new_block w
            w2 ← inode_flush dev fs (record n { doubly_ip = b }) w1
            (c, w3) ← new_block w2
            w4 ← write_entry b (i / addresses_per_block fs) c w3
            done (c, record n { doubly_ip = b }, w4))
          else (do c ← read_entry n.doubly_ip (i / addresses_per_block fs) w; done (c, n, w)))
    w'' ← write_entry indirect (i % addresses_per_block fs) address w'
    done (n', w'')

  -- Behind the doubly indirect blocks nothing is set.
  unfoldable pub set_block_address : Inode → ℕ → ℕ → World → Outcome (Inode × World)
  set_block_address n block_index address w =
      if ltb block_index 12
      then set_direct n block_index address w
      else (let i = block_index - 12 in
          if ltb i (addresses_per_block fs)
          then set_singly n i address w
          else (let j = i - addresses_per_block fs in
              mul_checked (addresses_per_block fs) (addresses_per_block fs) >>= λ square.
              if ltb j square then set_doubly n j address w else done (n, w)))

  -- `for i in i..i + left`
  unfoldable pub grow : ℕ → ℕ → Inode × World → Outcome (Inode × World)
  grow i zero state = done state
  grow i (suc left) (n, w) =
      new_block w >>= λ (b, w'). set_block_address n i b w' >>= grow (i + 1) left

  unfoldable pub finish_resize : ℕ → ℕ → Inode × World → Outcome (Inode × World)
  finish_resize new_size new_block_cnt (n, w) = do
    bytes ← mul_checked new_block_cnt fs.block_size
    let n' = record n { sizel = u32 new_size; sectors_used = u32 (bytes / 512) }
    w' ← inode_flush dev fs n' w
    done (n', w')

  unfoldable pub resize : Inode → ℕ → World → Outcome (Inode × World)
  resize n new_size w = if new_size == n.sizel then done (n, w) else (do
    new_block_cnt ← div_ceil new_size fs.block_size
    old_block_cnt ← div_ceil n.sizel fs.block_size
    if new_block_cnt == old_block_cnt then done (n, w) else (do
      grown ←
          (if ltb old_block_cnt new_block_cnt
            then grow old_block_cnt (new_block_cnt - old_block_cnt) (n, w)
            else done (n, w))
      finish_resize new_size new_block_cnt grown))
