-- ===== src/Examples/Tables.antt =====
-- The interrupt table, the numbers of threads, and the mount points.
use griffin.Common.{
  ℕ, ◌+◌, ◌≡◌, refl, true, none, some, List, [], ◌∷◌, length, arith, done, length-replicate,
}
use griffin.Utils.Bitmap.{Bitmap, is_set, set, modify, find_clear}
use griffin.Utils.Bitmap.Laws.{zeros}
use griffin.Arch.Interrupts.{idt_gate, empty_idt, alloc_vector, free_vector}
use griffin.Proc.Process.{alloc_id}
use griffin.Fs.Vfs.{
  MountPoint, Filesystem, description, contains, slice_from, mount, get_mount_point, pick_all,
  vfs_open, vfs_mkdir,
}
use griffin.Fs.Vfs.Mounts.{IsTable}
use griffin.Fs.Vfs.Opens.{IsLongest, get_mount_point-IsLongest}

empty_length : length empty_idt ≡ 256
empty_length = length-replicate 256 (idt_gate 0 0 0 0)

first_vector : alloc_vector empty_idt ≡ done (some 32)
unfolding alloc_vector free_vector
first_vector = refl

abbrev ids : Bitmap
ids = zeros 0 1

abbrev ids_one : Bitmap
ids_one = record { data_ptr = 0; bytes = 1 ∷ []; size = 1 }

abbrev ids_two : Bitmap
ids_two = record { data_ptr = 0; bytes = 3 ∷ []; size = 1 }

take_first : alloc_id (some ids) ≡ done (some 0, ids_one)
unfolding alloc_id find_clear is_set set modify
take_first = refl

take_second : alloc_id (some ids_one) ≡ done (some 1, ids_two)
unfolding alloc_id find_clear is_set set modify
take_second = refl

abbrev first_id : ℕ
first_id = 0

-- File systems are numbers here; each opens every path, with the path's length as the file's index.
abbrev lengths : Filesystem ℕ ℕ
lengths = record {
  open_file = λ fs path flags mode w. done (some (description (length path) flags fs), w + 1);
  make_dir = λ fs path mode w. done (none, w);
  read_file = λ fs index buffer cnt offset w. done (0, w);
  write_file = λ fs index buffer cnt offset w. done (cnt, w);
}

-- "/" and "/a"
abbrev mounts : List (MountPoint ℕ)
mounts =
    record { name = 0x2f ∷ []; fs = some 1 } ∷ record { name = 0x2f ∷ 0x61 ∷ []; fs = some 2 } ∷ []

mounts_made : mount 2 (0x2f ∷ 0x61 ∷ []) (mount 1 (0x2f ∷ []) []).1 ≡ (true, mounts)
unfolding mount
mounts_made = refl

-- "/a/b" goes to the second.
opened :
    vfs_open lengths (0x2f ∷ 0x61 ∷ 0x2f ∷ 0x62 ∷ []) 0 0 mounts 0
    ≡ done (some (description 2 0 2), 1)
unfolding vfs_open get_mount_point pick_all contains slice_from
opened = refl

-- "b/a": `mkdir` takes a relative path, and the mount point "/a" in its middle.
made : vfs_mkdir lengths (0x62 ∷ 0x2f ∷ 0x61 ∷ []) 0 mounts 0 ≡ done (none, 0)
unfolding vfs_mkdir get_mount_point pick_all contains slice_from
made = refl

get_mount_point-IsLongest_example :
    IsLongest
      (0x2f ∷ 0x61 ∷ 0x2f ∷ 0x62 ∷ [])
      mounts
      (get_mount_point (0x2f ∷ 0x61 ∷ 0x2f ∷ 0x62 ∷ []) mounts)
get_mount_point-IsLongest_example =
    get_mount_point-IsLongest (0x2f ∷ 0x61 ∷ 0x2f ∷ 0x62 ∷ []) mounts

empty-IsTable : IsTable {Fs = ℕ} []
empty-IsTable = record {
  absolute = λ j d e. absurd (ground arith);
  mounted = λ j d e. absurd (ground arith);
  distinct = λ i j d e p q s. absurd (ground arith);
}
