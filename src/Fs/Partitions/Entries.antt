-- ===== src/Fs/Partitions/Entries.antt =====
-- The scan of the partition entries keeps the last file system that is accepted.
use griffin.Common.{ℕ, ◌+◌, ◌≤◌, ◌<◌, ◌≢◌, ◌⊎◌, ◌*◌, Option, none, some, List, Outcome, done, panic}
use griffin.Fs.Device.{Device}
use griffin.Fs.Ext2.Volume.{Ext2Filesystem}
use griffin.Fs.Partitions.Verdict.{little, IsTried}

module _ {World : Type 0} (dev : Device World) (bs : List ℕ) (w : World) where
  -- An entry has 128 bytes; it is in use if its first 8 bytes are not all zero, and the first block of
  -- its partition is the number in the 8 bytes behind the first 32.
  abbrev pub IsUsed : ℕ → Type 0
  IsUsed j = little bs (j * 128) 8 ≢ 0

  abbrev pub first_block : ℕ → ℕ
  first_block j = little bs (j * 128 + 32) 8

  -- The entry is not in use, or its partition has no file system.
  abbrev pub IsPassed : ℕ → Type 0
  IsPassed j = (¬ IsUsed j) ⊎ IsTried dev w (first_block j) (done none)

  -- The outcomes of the scan from `i` on: every entry is passed over and the file system stays; the
  -- last one that is not passed over gives the file system; or the code panics at an entry in use.
  pub data IsLast (i left : ℕ) (fs : Option Ext2Filesystem)
      : Outcome (Option Ext2Filesystem) → Type 0 where
    stays : ((j : ℕ) → i ≤ j → j < i + left → IsPassed j) → IsLast i left fs (done fs)
    last :
        (k : ℕ) (found : Ext2Filesystem)
        → i ≤ k
        → k < i + left
        → IsUsed k
        → IsTried dev w (first_block k) (done (some found))
        → ((j : ℕ) → k < j → j < i + left → IsPassed j)
        → IsLast i left fs (done (some found))
    panics :
        (k : ℕ)
        → i ≤ k
        → k < i + left
        → IsUsed k
        → IsTried dev w (first_block k) panic
        → IsLast i left fs panic
