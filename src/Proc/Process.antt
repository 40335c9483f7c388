-- ===== src/Proc/Process.antt =====
-- proc/process.rs: the numbers of processes and threads, and a new thread's registers. A reference to
-- the parent process is its number here.
pub mod Ids
pub mod Create
use griffin.Common.{
  ℕ, ◌*◌, Option, none, some, Outcome, done, panic, ◌>>=◌, expect, bit_and, ◌==◌, if◌then◌else◌,
  mul_checked,
}
use griffin.Utils.Bitmap.{Bitmap, set, find_clear}

pub data Status : Type 0 where
  running : Status
  waiting : Status
  dying : Status

pub data SelectorValues : Type 0 where
  kernel_cs : SelectorValues
  kernel_ds : SelectorValues
  user_cs : SelectorValues
  user_ds : SelectorValues

-- `cs as u64`
abbrev pub selector : SelectorValues → ℕ
selector kernel_cs = 0x8
selector kernel_ds = 0x10
selector user_cs = 0x1b
selector user_ds = 0x23

-- arch/x86_64/cpu.rs
pub record InterruptContext : Type 0 where
  pub rax : ℕ
  pub rbx : ℕ
  pub rcx : ℕ
  pub rdx : ℕ
  pub rsi : ℕ
  pub rdi : ℕ
  pub rbp : ℕ
  pub r8 : ℕ
  pub r9 : ℕ
  pub r10 : ℕ
  pub r11 : ℕ
  pub r12 : ℕ
  pub r13 : ℕ
  pub r14 : ℕ
  pub r15 : ℕ
  pub rip : ℕ
  pub cs : ℕ
  pub rflags : ℕ
  pub rsp : ℕ
  pub ss : ℕ

pub record Thread : Type 0 where
  pub tid : ℕ
  pub status : Status
  pub parent : ℕ
  pub kernel_stack : ℕ
  pub regs : InterruptContext

abbrev pub take_id : Bitmap → Option ℕ → Outcome (Option ℕ × Bitmap)
take_id b none = done (none, b)
take_id b (some i) = do b' ← set b i; done (some i, b')

-- `alloc_pid` and `alloc_tid`, which differ only in their bitmap; `none` is one that is not made yet.
unfoldable pub alloc_id : Option Bitmap → Outcome (Option ℕ × Bitmap)
alloc_id bitmap = do
  b ← expect bitmap
  bits ← mul_checked b.size 8
  r ← find_clear b 0 bits
  take_id b r

abbrev pub stack_selector : SelectorValues → ℕ
stack_selector cs = if bit_and (selector cs) 0x3 == 0 then selector kernel_ds else selector user_ds

-- `InterruptContext::default()`
abbrev pub no_regs : InterruptContext
no_regs = record {
  rax = 0;
  rbx = 0;
  rcx = 0;
  rdx = 0;
  rsi = 0;
  rdi = 0;
  rbp = 0;
  r8 = 0;
  r9 = 0;
  r10 = 0;
  r11 = 0;
  r12 = 0;
  r13 = 0;
  r14 = 0;
  r15 = 0;
  rip = 0;
  cs = 0;
  rflags = 0;
  rsp = 0;
  ss = 0;
}

abbrev pub thread : ℕ → ℕ → SelectorValues → ℕ → Thread
thread tid rip cs parent = record {
  tid = tid;
  status = running;
  parent = parent;
  kernel_stack = 0;
  regs = record no_regs { ss = stack_selector cs; rflags = 0x202; cs = selector cs; rip = rip };
}

unfoldable pub thread_new : ℕ → SelectorValues → ℕ → Option Bitmap → Outcome (Thread × Bitmap)
unfolding alloc_id
thread_new rip cs parent tids = do
  (id, tids') ← alloc_id tids
  tid ← expect id
  done (thread tid rip cs parent, tids')
