-- ===== src/Arch/Cpu/Features.antt =====
-- Which bits of `cr4` the kernel sets, and the two halves of a model-specific register.
use griffin.Common.{
  ℕ, ◌^◌, ◌<◌, ◌≡◌, ap, ◌∙◌, max, bit_or, Bool, true, false, ◌==◌, ◌&&◌, ◌||◌, if◌then◌else◌, u32,
  ◌<<<◌, ◌>>>◌, arith,
}
use griffin.Bits.Digits.{bit_at, bit_at-bit_or, bit_at-le, bit_or_comm}
use griffin.Bits.Masks.{bit_at-pow, bit_or_fields}
use griffin.Arch.Cpu.{
  Cpuid, has_smap, has_smep, has_fsgsbase, has_umip, set_if, init_features, Msrs, rdmsr, wrmsr,
}

-- The feature that bit `i` of `cr4` turns on.
abbrev pub feature : (ℕ → ℕ → Cpuid) → ℕ → Bool
feature raw i =
    (i == 21 && has_smap raw)
    || (i == 20 && has_smep raw)
    || (i == 11 && has_umip raw)
    || (i == 16 && has_fsgsbase raw)

module _ (raw : ℕ → ℕ → Cpuid) where
  bit_at-set_if :
      (on : Bool) (k cr4 i : ℕ)
      → bit_at i (set_if raw on k cr4) ≡ (if i == k && on then 1 else bit_at i cr4)
  bit_at-set_if false k cr4 i = ground arith
  bit_at-set_if true k cr4 i =
      let one : 1 <<< k ≡ 2 ^ k = omega arith in
      let bits : bit_at i (bit_or cr4 (1 <<< k)) ≡ max (bit_at i cr4) (bit_at i (2 ^ k)) =
        ap (λ (m : ℕ). bit_at i (bit_or cr4 m)) one ∙ bit_at-bit_or i cr4 (2 ^ k) in
      ground (arith, bits, bit_at-pow i k, bit_at-le i cr4)

  -- Bit `i` of the new `cr4` is 1 if the processor has the feature that the bit turns on, and else what
  -- it was.
  pub bit_at-init_features :
      (cr4 i : ℕ) → bit_at i (init_features raw cr4) ≡ (if feature raw i then 1 else bit_at i cr4)
  unfolding init_features
  bit_at-init_features cr4 i =
      let c1 = set_if raw (has_smap raw) 21 cr4 in
      let c2 = set_if raw (has_smep raw) 20 c1 in
      let c3 = set_if raw (has_umip raw) 11 c2 in
      ground (
        arith,
        bit_at-set_if (has_smap raw) 21 cr4 i,
        bit_at-set_if (has_smep raw) 20 c1 i,
        bit_at-set_if (has_umip raw) 11 c2 i,
        bit_at-set_if (has_fsgsbase raw) 16 c3 i,
      )

-- The halves that were written are read back.
pub record IsMsrs {World : Type 0} (msrs : Msrs World) : Type 0 where
  pub written :
      (msr low high : ℕ) (w : World)
      → low < 2 ^ 32
      → high < 2 ^ 32
      → msrs.rdmsr_halves msr (msrs.wrmsr_halves msr low high w) ≡ (low, high)

-- A 64-bit value that `wrmsr` writes to a register, as two halves, is what `rdmsr` returns, if the
-- register keeps the halves.
pub rdmsr-wrmsr :
    {World : Type 0} {msrs : Msrs World}
    → IsMsrs msrs
    → (msr value : ℕ) (w : World) → value < 2 ^ 64
    → rdmsr msrs msr (wrmsr msrs msr value w) ≡ value
unfolding rdmsr wrmsr
rdmsr-wrmsr {World} {msrs} law msr value w h =
    let back = law.written msr (u32 value) (u32 (value >>> 32)) w (omega arith) (omega arith) in
    rw back (
      bit_or_comm (u32 value) (u32 (value >>> 32) <<< 32)
      ∙ bit_or_fields 32 (u32 (value >>> 32)) (u32 value) (omega arith)
      ∙ omega arith)
