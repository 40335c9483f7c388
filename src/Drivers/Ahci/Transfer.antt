-- ===== src/Drivers/Ahci/Transfer.antt =====
-- drivers/ahci.rs: `read` and `write`. `send_command` is a parameter here: what the controller does
-- with the pages of the temporary buffer, which are a list of bytes. A transfer that goes beyond those
-- pages is undefined in the source, and a panic here.
use griffin.Common.{
  ℕ, ◌+◌, ◌*◌, ◌/◌, ◌%◌, Bool, true, false, Option, none, some, List, [], length, Outcome, done,
  panic, ◌>>=◌, leb, if◌then◌else◌, u16, add_checked,
}
use griffin.Utils.Math.{div_ceil}
use griffin.Fs.Ext2.Layout.{bytes_at}
use griffin.Fs.Device.{new_buffer, put}

-- A command on sectors from `lba` on: the number of bytes that it moved or `Err(())`, the buffer and
-- the state after it.
pub record Controller (World : Type 0) : Type 0 where
  pub send_command : ℕ → ℕ → Bool → List ℕ → World → Outcome (Option ℕ × List ℕ × World)

-- The sectors that `bytes` bytes from `offset` on touch.
unfoldable pub sector_cnt : ℕ → ℕ → Outcome ℕ
sector_cnt offset bytes = do
  span ← add_checked bytes (offset % 512)
  sectors ← div_ceil span 512
  done (u16 sectors)

-- `copy_from` with the source and the destination at an offset of the temporary buffer
abbrev pub copy_out : List ℕ → ℕ → ℕ → Outcome (List ℕ)
copy_out tmp i bytes = if leb (i + bytes) (length tmp) then done (bytes_at tmp i bytes) else panic

abbrev pub copy_in : List ℕ → ℕ → List ℕ → Outcome (List ℕ)
copy_in tmp i buffer =
    if leb (i + length buffer) (length tmp) then done (put tmp i buffer) else panic

module _ {World : Type 0} (c : Controller World) where
  -- A command within the buffer.
  unfoldable pub send : ℕ → ℕ → Bool → List ℕ → World → Outcome (Option ℕ × List ℕ × World)
  send lba sectors to_disk tmp w =
      if leb (sectors * 512) (length tmp) then c.send_command lba sectors to_disk tmp w else panic

  -- The result, the bytes that were copied to the caller, and the state.
  unfoldable pub ahci_read : ℕ → ℕ → World → Outcome (Option ℕ × List ℕ × World)
  ahci_read offset bytes w = new_buffer bytes >>= λ tmp. sector_cnt offset bytes >>= λ sectors.
      send (offset / 512) sectors false tmp w >>= λ (r, tmp', w'). elim r [
        | none ↦ done (none, [], w')
        | some bc ↦ copy_out tmp' (offset % 512) bytes >>= λ out. done (some bc, out, w')
      ]

  -- The sectors are read, changed and written back.
  unfoldable pub ahci_write : ℕ → List ℕ → World → Outcome (Option ℕ × World)
  ahci_write offset buffer w = new_buffer (length buffer) >>= λ tmp.
      sector_cnt offset (length buffer) >>= λ sectors.
      send (offset / 512) sectors false tmp w >>= λ (r, tmp', w'). elim r [
        | none ↦ done (none, w')
        | some bc ↦ copy_in tmp' (offset % 512) buffer >>= λ tmp''.
            send (offset / 512) sectors true tmp'' w' >>= λ (r', tmp''', w''). done (r', w'')
      ]
