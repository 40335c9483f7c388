-- ===== src/Mm/VirtAddr/Laws.antt =====
-- The four table indices of a virtual address, and the fields of a page-table entry.
use griffin.Common.{◌↔◌, ℕ, ◌+◌, ◌*◌, ◌/◌, ◌%◌, ◌^◌, ◌≡◌, arith}
use griffin.Bits.Masks.{bit_and_mask}
use griffin.Arch.PhysAddr.{page_size}
use griffin.Mm.VirtAddr.{pml4, pdp, pd, pt}

pub pml4_lem : (a : ℕ) → pml4 a ≡ a / 2 ^ 39 % 512
unfolding pml4
pml4_lem a = omega (arith, bit_and_mask 9 (a / 2 ^ 39))

pub pdp_lem : (a : ℕ) → pdp a ≡ a / 2 ^ 30 % 512
unfolding pdp
pdp_lem a = omega (arith, bit_and_mask 9 (a / 2 ^ 30))

pub pd_lem : (a : ℕ) → pd a ≡ a / 2 ^ 21 % 512
unfolding pd
pd_lem a = omega (arith, bit_and_mask 9 (a / 2 ^ 21))

pub pt_lem : (a : ℕ) → pt a ≡ a / 2 ^ 12 % 512
unfolding pt
pt_lem a = omega (arith, bit_and_mask 9 (a / 2 ^ 12))

pub ruleset indices = (pml4_lem, pdp_lem, pd_lem, pt_lem)

-- The four indices and the offset in the page are the low 48 bits of the address, cut into fields.
pub indices_join :
    (a : ℕ) → ((pml4 a * 512 + pdp a) * 512 + pd a) * 512 + pt a ≡ a % 2 ^ 48 / page_size
indices_join a = omega (arith, pml4_lem a, pdp_lem a, pd_lem a, pt_lem a)

-- Two addresses have the same four indices exactly if they lie in the same page of the low 48 bits.
pub same_page_iff :
    (a b : ℕ)
    → ((pml4 a ≡ pml4 b) × (pdp a ≡ pdp b) × (pd a ≡ pd b) × (pt a ≡ pt b))
      ↔ (a % 2 ^ 48 / page_size ≡ b % 2 ^ 48 / page_size)
same_page_iff a b = (
  λ h. omega (arith, indices_join a, indices_join b),
  λ h. (
    omega (arith, pml4_lem a, pml4_lem b),
    omega (arith, pdp_lem a, pdp_lem b),
    omega (arith, pd_lem a, pd_lem b),
    omega (arith, pt_lem a, pt_lem b),
  ),
)
