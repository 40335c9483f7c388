-- ===== src/Fs/Ext2/Directory.antt =====
-- fs/ext2.rs: `DirectoryEntry`. The entries lie one after the other in the directory's bytes: the
-- inode, the size of the entry, the length of the name, a type, and the name. A read behind the
-- buffer is undefined in the source, and a panic here; so is a loop that does not end.
pub mod Listing
use griffin.Common.{
  checked32, ℕ, zero, suc, ◌+◌, ◌-◌, ◌*◌, Bool, true, false, ◌&&◌, ◌||◌, not, Option, none, some,
  List, [], ◌∷◌, ◌++◌, length, replicate, get_or, set as set_elem, Outcome, done, panic, ◌>>=◌, leb,
  ltb, ◌==◌, if◌then◌else◌, mul_checked, sub_checked, u8, u16,
}
use griffin.Utils.Math.{div_ceil, round_up}
use griffin.Arch.PhysAddr.{page_size}
use griffin.Fs.Vfs.{Str, same_str}
use griffin.Fs.Device.{Device, new_buffer, put}
use griffin.Fs.Ext2.Layout.{Inode, le16, le32, u8_at, u16_at, u32_at, bytes_at}
use griffin.Fs.Ext2.Volume.{Ext2Filesystem, is_directory}
use griffin.Fs.Ext2.Files.{inode_read, inode_write}

-- `size_of::<DirectoryEntry>()`, the part before the name
abbrev pub entry_header : ℕ
entry_header = 8

-- `expect` of a read or write that may fail
abbrev pub unwrap_pair : {A : Type 0} → Option ℕ × A → Outcome A
unwrap_pair (none, a) = panic
unwrap_pair (some k, a) = done a

-- The loop of `search` at offset `i`.
unfoldable pub search_loop : List ℕ → ℕ → Str → ℕ → ℕ → Outcome (Option ℕ)
search_loop buffer sizel name zero i = if ltb i sizel then panic else done none
search_loop buffer sizel name (suc fuel) i = elim (ltb i sizel) [
  | false ↦ done none
  | true ↦ elim (leb (i + entry_header) (length buffer)) [
    | false ↦ panic
    | true ↦ checked32 (i + u16_at buffer (i + 4)) >>= λ next.
        elim (u32_at buffer i == 0 || not (u8_at buffer (i + 6) == length name)) [
          | true ↦ search_loop buffer sizel name fuel next
          | false ↦ elim (leb (i + entry_header + length name) (length buffer)) [
            | false ↦ panic
            | true ↦ elim (same_str (bytes_at buffer (i + entry_header) (length name)) name) [
              | true ↦ done (some (u32_at buffer i))
              | false ↦ search_loop buffer sizel name fuel next
            ]
          ]
        ]
  ]
]

-- The buffer after the entry at `i` was cut to `true_size` and the new one put behind it.
unfoldable pub split_entry : List ℕ → ℕ → ℕ → ℕ → ℕ → Str → List ℕ
split_entry buffer i true_size empty_space inode name =
    put (put buffer (i + 4) (le16 (u16 true_size))) (i + true_size)
      (le32 inode ++ (le16 (u16 empty_space) ++ (u8 (length name) ∷ 1 ∷ name)))

-- The loop of `add_entry` at offset `i`: the new buffer, or none where no entry has room.
unfoldable pub add_loop : List ℕ → ℕ → ℕ → Str → ℕ → ℕ → Outcome (Option (List ℕ))
add_loop buffer sizel inode name zero i = if ltb i sizel then panic else done none
add_loop buffer sizel inode name (suc fuel) i = elim (ltb i sizel) [
  | false ↦ done none
  | true ↦ elim (leb (i + entry_header) (length buffer)) [
    | false ↦ panic
    | true ↦ round_up (entry_header + u8_at buffer (i + 6)) 4 >>= λ true_size.
        round_up (entry_header + length name) 4 >>= λ space_needed.
        let empty_space = u16_at buffer (i + 4) - true_size in
        elim (ltb true_size (u16_at buffer (i + 4)) && leb space_needed empty_space) [
          | true ↦ done (some (split_entry buffer i true_size empty_space inode name))
          | false ↦ checked32 (i + u16_at buffer (i + 4)) >>= λ next.
              add_loop buffer sizel inode name fuel next
        ]
  ]
]

module _ {World : Type 0} (dev : Device World) (fs : Ext2Filesystem) where
  -- The directory's bytes, in a buffer of whole pages.
  unfoldable pub read_all : Inode → World → Outcome (List ℕ)
  read_all n w = do
    empty ← new_buffer n.sizel
    r ← inode_read dev fs n 0 n.sizel empty w
    unwrap_pair r

  unfoldable pub search : Inode → Str → World → Outcome (Option ℕ)
  search n name w =
      if not (is_directory n)
      then done none
      else (do buffer ← read_all n w; search_loop buffer n.sizel name n.sizel 0)

  -- The result is false for `Err(())`.
  unfoldable pub add_entry : Inode → ℕ → Str → World → Outcome (Bool × Inode × World)
  add_entry dir inode name w =
      if not (is_directory dir)
      then done (false, dir, w)
      else (read_all dir w >>= λ buffer. add_loop buffer dir.sizel inode name dir.sizel 0 >>= λ r.
          elim r [
            | none ↦ done (false, dir, w)
            | some buffer' ↦ inode_write dev fs dir 0 dir.sizel buffer' w >>= λ (written, dir', w').
                unwrap_pair (written, w') >>= λ w''. done (true, dir', w'')
          ])
