-- ===== src/Arch/Pci/Address.antt =====
-- The configuration address: its fields do not overlap, so no two registers share one.
use griffin.Common.{ℕ, ◌+◌, ◌*◌, ◌/◌, ◌%◌, ◌^◌, ◌<◌, ◌≡◌, arith, bit_and, bit_or}
use griffin.Bits.Masks.{bit_and_mask, bit_or_fields, bit_and-shl}
use griffin.Arch.Pci.{address}

-- The offset without its two low bits.
low_bits : (offset : ℕ) → offset < 256 → bit_and offset 0xfc ≡ offset / 4 * 4
low_bits offset h = omega (arith, bit_and-shl 2 offset 63, bit_and_mask 6 (offset / 4))

-- For a bus and an offset of 8 bits the address is the sum of the fields: the bus from bit 16, the
-- device's low five bits from bit 11, the function's low three from bit 8, and the offset's dword.
pub address_lem :
    (bus device function offset : ℕ)
    → bus < 256
    → offset < 256
    → address bus device function offset
      ≡ 0x80000000 + bus * 2 ^ 16 + device % 32 * 2 ^ 11 + function % 8 * 2 ^ 8 + offset / 4 * 4
unfolding address
address_lem bus device function offset hb ho =
    let d = bit_and_mask 5 device in
    let f = bit_and_mask 3 function in
    let o = low_bits offset ho in
    let e1 : bit_or 0x80000000 (bus * 2 ^ 16) ≡ (2 ^ 15 + bus) * 2 ^ 16 =
      omega (arith, bit_or_fields 24 128 (bus * 2 ^ 16) (omega arith)) in
    let e2 : bit_or ((2 ^ 15 + bus) * 2 ^ 16) (device % 32 * 2 ^ 11)
        ≡ (2 ^ 20 + bus * 32 + device % 32) * 2 ^ 11 =
      omega (arith, bit_or_fields 16 (2 ^ 15 + bus) (device % 32 * 2 ^ 11) (omega arith)) in
    let e3 : bit_or ((2 ^ 20 + bus * 32 + device % 32) * 2 ^ 11) (function % 8 * 2 ^ 8)
        ≡ (2 ^ 23 + bus * 256 + device % 32 * 8 + function % 8) * 2 ^ 8 =
      omega (
        arith,
        bit_or_fields 11 (2 ^ 20 + bus * 32 + device % 32) (function % 8 * 2 ^ 8) (omega arith),
      ) in
    let e4 =
      bit_or_fields 8 (2 ^ 23 + bus * 256 + device % 32 * 8 + function % 8) (offset / 4 * 4)
        (omega arith) in
    rw (d, f, o, e1, e2, e3, e4) (omega arith)

-- Two registers that are within the ranges of bus, device, function and offset have the same address
-- only if they are the same function of the same device and the same dword.
pub address_inj :
    (b1 d1 f1 o1 b2 d2 f2 o2 : ℕ)
    → b1 < 256
    → b2 < 256
    → d1 < 32
    → d2 < 32
    → f1 < 8
    → f2 < 8
    → o1 < 256
    → o2 < 256
    → address b1 d1 f1 o1 ≡ address b2 d2 f2 o2
    → (b1 ≡ b2) × (d1 ≡ d2) × (f1 ≡ f2) × (o1 / 4 ≡ o2 / 4)
address_inj b1 d1 f1 o1 b2 d2 f2 o2 hb1 hb2 hd1 hd2 hf1 hf2 ho1 ho2 e =
    let e1 = address_lem b1 d1 f1 o1 hb1 ho1 in
    let e2 = address_lem b2 d2 f2 o2 hb2 ho2 in (omega arith, omega arith, omega arith, omega arith)
