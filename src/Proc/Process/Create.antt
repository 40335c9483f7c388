-- ===== src/Proc/Process/Create.antt =====
-- proc/process.rs: `Process::new` and `init_bitmaps`. A file description's type is a parameter, and a
-- thread of a process its number.
use griffin.Common.{ℕ, Option, none, List, [], replicate, Outcome, done, ◌>>=◌}
use griffin.Utils.Bitmap.{Bitmap}
use griffin.Arch.PhysAddr.{page_size}
use griffin.Arch.Pmm.{Machine}
use griffin.Arch.Pmm.Buffers.{new_bitmap}
use griffin.Fs.Vfs.{Str}
use griffin.Mm.Ranges.{VirtualMemManager}
use griffin.Proc.Process.{Status, running}

abbrev pub max_fds_per_process : ℕ
max_fds_per_process = 128

module _ (Fs Fd : Type 0) where
  pub record Process : Type 0 where
    pub pid : ℕ
    pub status : Status
    pub name : Str
    pub pagemap : Option (VirtualMemManager Fs)
    pub threads : List ℕ
    pub file_desc_list : List (Option Fd)
    pub working_dir : Option Fd

  -- The instruction pointer is not used, and no number is taken.
  abbrev pub new_process : Str → ℕ → Option Fd → Process
  new_process name rip working_dir = record {
    pid = 0;
    status = running;
    name = name;
    pagemap = none;
    threads = [];
    file_desc_list = replicate max_fds_per_process none;
    working_dir = working_dir;
  }

-- `PID_BITMAP` and `TID_BITMAP`
unfoldable pub init_bitmaps : Machine → Outcome ((Bitmap × Bitmap) × Machine)
init_bitmaps m = do
  (pids, m') ← new_bitmap page_size m
  (tids, m'') ← new_bitmap page_size m'
  done ((pids, tids), m'')
