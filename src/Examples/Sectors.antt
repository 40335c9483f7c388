-- ===== src/Examples/Sectors.antt =====
-- A controller over a disk in memory.
use griffin.Common.{
  ℕ, zero, suc, ◌+◌, ◌-◌, ◌*◌, ◌%◌, ◌≡◌, refl, ◌&&◌, some, List, [], ◌∷◌, get_or, done, panic, leb,
  ltb, if◌then◌else◌,
}
use griffin.Fs.Device.{slice, new_buffer}
use griffin.Drivers.Ahci.Transfer.{Controller, ahci_read, sector_cnt, send}
use griffin.Utils.Math.{div_ceil}

-- The bytes `f pos`, `f (pos + 1)` and so on, in the first `n` places of a list.
abbrev fill : (ℕ → ℕ) → ℕ → ℕ → List ℕ → List ℕ
fill f pos zero tmp = tmp
fill f pos (suc n) [] = []
fill f pos (suc n) (x ∷ tmp) = f pos ∷ fill f (pos + 1) n tmp

abbrev store : ℕ → ℕ → List ℕ → (ℕ → ℕ) → ℕ → ℕ
store start size tmp w a =
    if leb start a && ltb a (start + size) then get_or tmp (a - start) 0 else w a

abbrev memory_controller : Controller (ℕ → ℕ)
memory_controller = record {
  send_command = λ lba sectors to_disk tmp w.
      if to_disk
      then done (some (sectors * 512), tmp, store (lba * 512) (sectors * 512) tmp w)
      else done (some (sectors * 512), fill w (lba * 512) (sectors * 512) tmp, w);
}

abbrev ramp : ℕ → ℕ
ramp a = a % 256

-- Four bytes across the boundary of two sectors.
read_across : ahci_read memory_controller 510 4 ramp ≡ done (some 1024, slice ramp 510 4, ramp)
unfolding ahci_read slice sector_cnt div_ceil new_buffer send
read_across = refl

-- A page from an odd position is a sector more than the buffer has.
too_far : ahci_read memory_controller 1 4096 ramp ≡ panic
unfolding ahci_read sector_cnt div_ceil new_buffer send
too_far = refl
