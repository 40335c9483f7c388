-- ===== src/Fs/Ext2/Files.antt =====
-- fs/ext2.rs: `Inode::read` and `Inode::write`. A buffer is the bytes from the caller's pointer on.
-- The loops run on fuel; that a loop does not end is a panic here.
pub mod Reads
use griffin.Common.{
  ℕ, zero, suc, ◌+◌, ◌*◌, ◌/◌, ◌%◌, true, false, Option, none, some, List, [], ◌∷◌, length, Outcome,
  done, panic, ◌>>=◌, leb, ltb, if◌then◌else◌, add_checked, div_checked,
}
use griffin.Fs.Device.{Device}
use griffin.Fs.Ext2.Layout.{Inode}
use griffin.Fs.Ext2.Volume.{Ext2Filesystem, position}
use griffin.Fs.Ext2.Pointers.{get_block_address, resize}

-- The bytes in front, and what is left of the others behind them.
abbrev pub overwrite : List ℕ → List ℕ → List ℕ
overwrite [] buffer = buffer
overwrite (b ∷ bs) [] = []
overwrite (b ∷ bs) (x ∷ buffer) = b ∷ overwrite bs buffer

-- The bytes are copied to the start of the buffer, and not behind its end.
abbrev pub copy_to : List ℕ → List ℕ → Outcome (List ℕ)
copy_to bs buffer = if leb (length bs) (length buffer) then done (overwrite bs buffer) else panic

abbrev pub take : ℕ → List ℕ → List ℕ
take zero xs = []
take (suc n) [] = []
take (suc n) (x ∷ xs) = x ∷ take n xs

-- The first bytes of the buffer, of which it has as many.
abbrev pub copy_from : ℕ → List ℕ → Outcome (List ℕ)
copy_from n buffer = if leb n (length buffer) then done (take n buffer) else panic

-- The number of bytes of one round.
abbrev pub count : ℕ → ℕ → ℕ → ℕ
count block_size bytes_read bytes =
    if leb (bytes_read + block_size) bytes then block_size else bytes % block_size

module _ {World : Type 0} (dev : Device World) (fs : Ext2Filesystem) (n : Inode)
    (offset bytes : ℕ) where
  -- The position of a round: the whole offset is added, whichever block it is.
  unfoldable pub round_position : ℕ → World → Outcome ℕ
  round_position blocks_read w = do
    first ← div_checked offset fs.block_size
    block_address ← get_block_address dev fs n (first + blocks_read) w
    position fs block_address offset

  -- One round after its position is known, and the loop with `fuel` rounds at most.
  unfoldable pub read_loop : World → ℕ → ℕ → ℕ → List ℕ → Outcome (Option ℕ × List ℕ)
  read_loop w zero blocks_read bytes_read buffer =
      if ltb bytes_read bytes then panic else done (some bytes_read, buffer)
  read_loop w (suc fuel) blocks_read bytes_read buffer = elim (ltb bytes_read bytes) [
    | false ↦ done (some bytes_read, buffer)
    | true ↦ round_position blocks_read w >>= λ pos.
        elim (dev.read w pos (count fs.block_size bytes_read bytes)) [
          | none ↦ done (none, buffer)
          | some bs ↦
              copy_to bs buffer
              >>= read_loop w fuel (blocks_read + 1)
                  (bytes_read + count fs.block_size bytes_read bytes)
        ]
  ]

  -- The buffer's first bytes are written in each round.
  unfoldable pub write_loop : List ℕ → ℕ → ℕ → ℕ → World → Outcome (Option ℕ × World)
  write_loop buffer zero blocks_written bytes_written w =
      if ltb bytes_written bytes then panic else done (some bytes_written, w)
  write_loop buffer (suc fuel) blocks_written bytes_written w = elim (ltb bytes_written bytes) [
    | false ↦ done (some bytes_written, w)
    | true ↦ round_position blocks_written w >>= λ pos.
        copy_from (count fs.block_size bytes_written bytes) buffer >>= λ bs.
        elim (dev.write w pos bs) [
          | none ↦ done (none, w)
          | some w' ↦
              write_loop buffer fuel (blocks_written + 1)
                (bytes_written + count fs.block_size bytes_written bytes) w'
        ]
  ]

module _ {World : Type 0} (dev : Device World) (fs : Ext2Filesystem) where
  unfoldable pub inode_read : Inode → ℕ → ℕ → List ℕ → World → Outcome (Option ℕ × List ℕ)
  unfolding read_loop round_position
  inode_read n offset bytes buffer w = read_loop dev fs n offset bytes w bytes 0 0 buffer

  unfoldable pub inode_write : Inode → ℕ → ℕ → List ℕ → World → Outcome (Option ℕ × Inode × World)
  unfolding write_loop round_position
  inode_write n offset bytes buffer w = do
    end ← add_checked offset bytes
    (n', w') ← resize dev fs n end w
    (r, w'') ← write_loop dev fs n' offset bytes buffer bytes 0 0 w'
    done (r, n', w'')
