-- ===== src/Arch/Cpu.antt =====
-- arch/x86_64/cpu.rs: what the processor can do, its model-specific registers, and its task state.
-- `cpuid`, `rdmsr` and `wrmsr` are instructions: parameters here.
pub mod Features
use griffin.Common.{
  ℕ, ◌*◌, ◌^◌, bit_and, bit_or, Bool, true, false, Outcome, done, panic, ◌>>=◌, expect, u32, ◌<<<◌,
  ◌>>>◌, ◌==◌, if◌then◌else◌,
}
use griffin.Arch.PhysAddr.{higher_half}
use griffin.Arch.Pmm.{Machine, calloc}
use griffin.Arch.Gdt.{Gdt, load_tss}

pub record Tss : Type 0 where
  pub reserved0 : ℕ
  pub rsp0 : ℕ
  pub rsp1 : ℕ
  pub rsp2 : ℕ
  pub reserved2 : ℕ
  pub ist1 : ℕ
  pub ist2 : ℕ
  pub ist3 : ℕ
  pub ist4 : ℕ
  pub ist5 : ℕ
  pub ist6 : ℕ
  pub ist7 : ℕ
  pub reserved3 : ℕ
  pub iobm : ℕ

-- `Tss::default`
abbrev pub blank_tss : Tss
blank_tss = record {
  reserved0 = 0;
  rsp0 = 0;
  rsp1 = 0;
  rsp2 = 0;
  reserved2 = 0;
  ist1 = 0;
  ist2 = 0;
  ist3 = 0;
  ist4 = 0;
  ist5 = 0;
  ist6 = 0;
  ist7 = 0;
  reserved3 = 0;
  iobm = 0;
}

pub record Cpuid : Type 0 where
  pub eax : ℕ
  pub ebx : ℕ
  pub ecx : ℕ
  pub edx : ℕ

-- `word & 1 << k != 0`
abbrev pub has_bit : ℕ → ℕ → Bool
has_bit word k = if bit_and word (1 <<< k) == 0 then false else true

-- `Cpuid::raw`, by `eax` and `ecx`
module _ (raw : ℕ → ℕ → Cpuid) where
  unfoldable pub has_smap : Bool
  has_smap = has_bit (raw 7 0).ebx 20

  unfoldable pub has_smep : Bool
  has_smep = has_bit (raw 7 0).ebx 7

  unfoldable pub has_fsgsbase : Bool
  has_fsgsbase = has_bit (raw 7 0).ebx 0

  unfoldable pub has_umip : Bool
  has_umip = has_bit (raw 7 0).ecx 2

  -- One bit of `cr4` is set if the processor has the feature.
  abbrev pub set_if : Bool → ℕ → ℕ → ℕ
  set_if feature k cr4 = if feature then bit_or cr4 (1 <<< k) else cr4

  unfoldable pub init_features : ℕ → ℕ
  init_features cr4 =
      set_if has_fsgsbase 16 (set_if has_umip 11 (set_if has_smep 20 (set_if has_smap 21 cr4)))

-- `rdmsr` and `wrmsr` put a register together from its halves and take it apart.
pub record Msrs (World : Type 0) : Type 0 where
  pub rdmsr_halves : ℕ → World → ℕ × ℕ
  pub wrmsr_halves : ℕ → ℕ → ℕ → World → World

abbrev pub apic_base : ℕ
apic_base = 0x1b

abbrev pub gs_base : ℕ
gs_base = 0xc0000101

module _ {World : Type 0} (msrs : Msrs World) where
  open msrs use {rdmsr_halves, wrmsr_halves}

  unfoldable pub rdmsr : ℕ → World → ℕ
  rdmsr msr w = let (low, high) = rdmsr_halves msr w in bit_or low (high <<< 32)

  unfoldable pub wrmsr : ℕ → ℕ → World → World
  wrmsr msr value w = wrmsr_halves msr (u32 value) (u32 (value >>> 32)) w

-- `calloc(2).expect(…).higher_half()`
unfoldable pub new_stack : Machine → Outcome (ℕ × Machine)
new_stack m = do (r, m') ← calloc 2 m; mem ← expect r; done (higher_half mem, m')

-- `cpu::start` behind `init_features`; `Box::leak` puts the task state at an address of the heap.
unfoldable pub cpu_start : ℕ → Gdt → Machine → Outcome (Tss × (Gdt × ℕ) × Machine)
cpu_start tss_addr g m = do
  (rsp0, m1) ← new_stack m
  (ist1, m2) ← new_stack m1
  (ist2, m3) ← new_stack m2
  done (record blank_tss { rsp0 = rsp0; ist1 = ist1; ist2 = ist2 }, load_tss tss_addr g, m3)
