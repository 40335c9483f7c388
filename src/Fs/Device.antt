-- ===== src/Fs/Device.antt =====
-- The disk as the file systems see it: `read` and `write` of drivers/ahci.rs, which take a position
-- and a number of bytes. `none` is `Err(())`.
pub mod Laws
use griffin.Common.{
  Outcome, done, panic, ◌>>=◌, replicate, set as set_elem, mul_checked, ◌==◌, ℕ, zero, suc, ◌+◌,
  ◌-◌, ◌<◌, ◌≡◌, ◌&&◌, Option, some, List, [], ◌∷◌, length, get_or, leb, ltb, if◌then◌else◌,
}
use griffin.Utils.Math.{div_ceil}
use griffin.Arch.PhysAddr.{page_size}

-- `PmmBox::new(size)` where only the bytes matter: zeroed pages; an allocation of no page fails.
unfoldable pub new_buffer : ℕ → Outcome (List ℕ)
new_buffer size = do
  pages ← div_ceil size page_size
  bytes ← mul_checked pages page_size
  if pages == 0 then panic else done (replicate bytes 0)

-- The bytes at an offset of the buffer are replaced.
abbrev pub put : List ℕ → ℕ → List ℕ → List ℕ
put buffer i [] = buffer
put buffer i (b ∷ bs) = put (set_elem buffer i b) (i + 1) bs

pub record Device (World : Type 0) : Type 0 where
  pub read : World → ℕ → ℕ → Option (List ℕ)
  pub write : World → ℕ → List ℕ → Option World

-- `n` bytes from `pos` on.
unfoldable pub slice : (ℕ → ℕ) → ℕ → ℕ → List ℕ
slice f pos zero = []
slice f pos (suc n) = f pos ∷ slice f (pos + 1) n

-- The bytes after `bs` was written at `pos`.
unfoldable pub patch : (ℕ → ℕ) → ℕ → List ℕ → ℕ → ℕ
patch f pos bs a = if leb pos a && ltb a (pos + length bs) then get_or bs (a - pos) 0 else f a

-- A device that holds bytes: a read that succeeds returns them, and a write that succeeds changes
-- those it is given and no others.
pub record IsDisk {World : Type 0} (dev : Device World) (bytes : World → ℕ → ℕ) : Type 0 where
  pub reads :
      (w : World) (pos n : ℕ) (bs : List ℕ)
      → dev.read w pos n ≡ some bs
      → bs ≡ slice (bytes w) pos n
  pub writes :
      (w w' : World) (pos : ℕ) (bs : List ℕ)
      → dev.write w pos bs ≡ some w'
      → (a : ℕ) → bytes w' a ≡ patch (bytes w) pos bs a
