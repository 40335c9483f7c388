-- ===== src/Fs/Vfs.antt =====
-- fs/vfs.rs: the table of mount points and the calls that go through it. A string is its bytes in
-- UTF-8. A reference to a file system is a value of `Fs`; what a file system does is the record
-- `Filesystem`, over a state `World` that its methods change.
pub mod Mounts
pub mod Opens
use griffin.Common.{
  ℕ, zero, suc, Bool, true, false, not, ◌&&◌, ◌||◌, Option, none, some, List, [], ◌∷◌, ◌++◌, length,
  Outcome, done, panic, ◌>>=◌, expect, ltb, leb, ◌==◌, if◌then◌else◌,
}

abbrev pub Str : Type 0
Str = List ℕ

-- `char::from('/')`
abbrev pub slash : ℕ
slash = 0x2f

-- `s.chars().nth(0) == Some('/')`
abbrev pub is_absolute : Str → Bool
is_absolute [] = false
is_absolute (c ∷ s) = c == slash

pub same_str : Str → Str → Bool
same_str [] [] = true
same_str [] (d ∷ t) = false
same_str (c ∷ s) [] = false
same_str (c ∷ s) (d ∷ t) = (c == d) && same_str s t

pub starts_with : Str → Str → Bool
starts_with s [] = true
starts_with [] (d ∷ t) = false
starts_with (c ∷ s) (d ∷ t) = (c == d) && starts_with s t

-- `str::contains`: the pattern occurs anywhere
unfoldable pub contains : Str → Str → Bool
unfolding starts_with
contains [] t = starts_with [] t
contains (c ∷ s) t = starts_with (c ∷ s) t || contains s t

-- `&s[n..]`, which panics beyond the end and inside a character
unfoldable pub slice_from : Str → ℕ → Outcome Str
slice_from s zero = done s
slice_from [] (suc n) = panic
slice_from (c ∷ []) (suc zero) = done []
slice_from (c ∷ d ∷ s) (suc zero) = if leb 0x80 d && ltb d 0xc0 then panic else done (d ∷ s)
slice_from (c ∷ s) (suc (suc n)) = slice_from s (suc n)

module _ (Fs : Type 0) where
  pub record FileDescription : Type 0 where
    pub flags : ℕ
    pub offset : ℕ
    pub fs : Fs
    pub file_index : ℕ

  pub record MountPoint : Type 0 where
    pub name : Str
    pub fs : Option Fs

-- `FileDescription::new`
abbrev pub description : {Fs : Type 0} → ℕ → ℕ → Fs → FileDescription Fs
description index flags fs = record { flags = flags; offset = 0; fs = fs; file_index = index }

-- The trait: `open` takes a path, flags and a mode, `mkdir` a path and a mode; `read` and `write` take
-- a file's index, a buffer, a count and an offset.
pub record Filesystem (Fs World : Type 0) : Type 0 where
  pub open_file : Fs → Str → ℕ → ℕ → World → Outcome (Option (FileDescription Fs) × World)
  pub make_dir : Fs → Str → ℕ → World → Outcome (Option (FileDescription Fs) × World)
  pub read_file : Fs → ℕ → ℕ → ℕ → ℕ → World → Outcome (ℕ × World)
  pub write_file : Fs → ℕ → ℕ → ℕ → ℕ → World → Outcome (ℕ × World)

module _ {Fs : Type 0} where
  pub is_mounted : Str → List (MountPoint Fs) → Bool
  unfolding same_str
  is_mounted target [] = false
  is_mounted target (mp ∷ rest) = same_str mp.name target || is_mounted target rest

  unfoldable pub mount : Fs → Str → List (MountPoint Fs) → Bool × List (MountPoint Fs)
  unfolding is_mounted
  mount fs target mounts =
      if not (is_absolute target)
      then (false, mounts)
      else (if is_mounted target mounts
          then (false, mounts)
          else (true, mounts ++ (record { name = target; fs = some fs } ∷ [])))

  -- One round of the loop of `get_mount_point`.
  abbrev pub pick : Str → Option (MountPoint Fs) → MountPoint Fs → Option (MountPoint Fs)
  pick path none mp = if contains path mp.name then some mp else none
  pick path (some curr) mp =
      if contains path mp.name
      then (if ltb (length curr.name) (length mp.name) then some mp else some curr)
      else some curr

  unfoldable pub pick_all :
      Str → Option (MountPoint Fs) → List (MountPoint Fs) → Option (MountPoint Fs)
  pick_all path curr [] = curr
  pick_all path curr (mp ∷ rest) = pick_all path (pick path curr mp) rest

  unfoldable pub get_mount_point : Str → List (MountPoint Fs) → Option (MountPoint Fs)
  unfolding pick_all
  get_mount_point path mounts = pick_all path none mounts

  module _ {World : Type 0} (ops : Filesystem Fs World) where
    -- The file system of the mount point and the rest of the path.
    abbrev pub resolve : Str → MountPoint Fs → Outcome (Fs × Str)
    resolve path mp = do fs ← expect mp.fs; rest ← slice_from path (length mp.name); done (fs, rest)

    unfoldable pub vfs_open :
        Str → ℕ → ℕ → List (MountPoint Fs) → World → Outcome (Option (FileDescription Fs) × World)
    vfs_open path flags mode mounts w =
        if not (is_absolute path) then done (none, w) else elim (get_mount_point path mounts) [
          | none ↦ done (none, w)
          | some mp ↦ resolve path mp >>= λ (fs, rest). ops.open_file fs rest flags mode w
        ]

    unfoldable pub vfs_mkdir :
        Str → ℕ → List (MountPoint Fs) → World → Outcome (Option (FileDescription Fs) × World)
    vfs_mkdir path mode mounts w = elim (get_mount_point path mounts) [
      | none ↦ done (none, w)
      | some mp ↦ resolve path mp >>= λ (fs, rest). ops.make_dir fs rest mode w
    ]

    abbrev pub vfs_read : Fs → ℕ → ℕ → ℕ → ℕ → World → Outcome (ℕ × World)
    vfs_read fs file_index buffer cnt offset w = ops.read_file fs file_index buffer cnt offset w

    abbrev pub vfs_write : Fs → ℕ → ℕ → ℕ → ℕ → World → Outcome (ℕ × World)
    vfs_write fs file_index buffer cnt offset w = ops.write_file fs file_index buffer cnt offset w
