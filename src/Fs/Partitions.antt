-- ===== src/Fs/Partitions.antt =====
-- fs/partitions.rs: the scan of a GPT for ext2 file systems. `EXT2_FS` holds the last one that
-- `try_and_init` accepted.
pub mod Verdict
pub mod Entries
use griffin.Common.{
  ℕ, zero, suc, ◌+◌, ◌*◌, ◌^◌, Bool, true, false, not, ◌&&◌, Option, none, some, List, [], ◌∷◌,
  Outcome, done, panic, ◌>>=◌, ◌==◌, mul_checked,
}
use griffin.Fs.Device.{Device, new_buffer}
use griffin.Fs.Ext2.Layout.{u32_at, bytes_at}
use griffin.Fs.Ext2.Volume.{Ext2Filesystem}
use griffin.Fs.Ext2.Paths.{try_and_init}

-- The fields that `scan` reads.
pub record GptHeader : Type 0 where
  pub signature : List ℕ
  pub start_lba : ℕ
  pub partition_entries : ℕ

-- `size_of::<GptHeader>()`
abbrev pub gpt_header_size : ℕ
gpt_header_size = 92

abbrev pub u64_at : List ℕ → ℕ → ℕ
u64_at bs i = u32_at bs i + 2 ^ 32 * u32_at bs (i + 4)

abbrev pub gpt_header_of : List ℕ → GptHeader
gpt_header_of bs = record {
  signature = bytes_at bs 0 8;
  start_lba = u64_at bs 72;
  partition_entries = u32_at bs 80;
}

pub record GptPartitionEntry : Type 0 where
  pub pt_guid0 : ℕ
  pub start_lba : ℕ

-- `size_of::<GptPartitionEntry>()`
abbrev pub gpt_entry_size : ℕ
gpt_entry_size = 128

abbrev pub gpt_entry_of : List ℕ → ℕ → GptPartitionEntry
gpt_entry_of bs i = record {
  pt_guid0 = u64_at bs (i * gpt_entry_size);
  start_lba = u64_at bs (i * gpt_entry_size + 32);
}

-- `EFI PART`
abbrev pub gpt_signature : List ℕ
gpt_signature = 0x45 ∷ 0x46 ∷ 0x49 ∷ 0x20 ∷ 0x50 ∷ 0x41 ∷ 0x52 ∷ 0x54 ∷ []

-- `a.iter().zip(b.iter()).all(|(a, b)| a != b)`
unfoldable pub all_differ : List ℕ → List ℕ → Bool
all_differ [] t = true
all_differ (c ∷ s) [] = true
all_differ (c ∷ s) (d ∷ t) = not (c == d) && all_differ s t

module _ {World : Type 0} (dev : Device World) where
  -- An entry in use is tried; an error of `try_and_init` changes nothing.
  unfoldable pub try_entry :
      GptPartitionEntry → World → Option Ext2Filesystem → Outcome (Option Ext2Filesystem)
  try_entry entry w fs = elim (entry.pt_guid0 == 0) [
    | true ↦ done fs
    | false ↦ try_and_init dev entry.start_lba w >>= λ r. elim r [
      | none ↦ done fs
      | some found ↦ done (some found)
    ]
  ]

  -- `left` entries from the one with index `i` on
  unfoldable pub try_entries :
      List ℕ → ℕ → ℕ → World → Option Ext2Filesystem → Outcome (Option Ext2Filesystem)
  try_entries bs i zero w fs = done fs
  try_entries bs i (suc left) w fs =
      try_entry (gpt_entry_of bs i) w fs >>= try_entries bs (i + 1) left w

  -- The result is none for `Err(())`, and else the file system; `scan_mbr` is `todo!()`.
  unfoldable pub scan : World → Option Ext2Filesystem → Outcome (Option (Option Ext2Filesystem))
  scan w fs = elim (dev.read w 512 gpt_header_size) [
    | none ↦ done none
    | some bs ↦
        let header = gpt_header_of bs in
        elim (all_differ header.signature gpt_signature) [
          | true ↦ panic
          | false ↦ mul_checked header.partition_entries gpt_entry_size >>= λ size.
              new_buffer size >>= λ buffer. mul_checked header.start_lba 512 >>= λ pos.
              elim (dev.read w pos size) [
                | none ↦ done none
                | some entries ↦
                    try_entries entries 0 header.partition_entries w fs >>= λ fs'. done (some fs')
              ]
        ]
  ]
