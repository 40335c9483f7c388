-- ===== src/Bits/Step.antt =====
-- The law of each bit operation for the lowest binary digit.
use Prim.Native.Nat.{digits, bitwise, bit_and-bitwise, bit_or-bitwise, bit_xor-bitwise, differ}
use griffin.Common.{
  ℕ, zero, suc, ◌+◌, ◌-◌, ◌*◌, ◌/◌, ◌%◌, ◌≤◌, min, max, bit_and, bit_or, bit_xor, ◌≡◌, refl, arith,
}

module _ (low : ℕ → ℕ) (digit : ℕ → ℕ → ℕ) where
  -- Fuel beyond the first operand changes nothing.
  digits_enough : (k l x y : ℕ) → x ≤ k → x ≤ l → digits low digit k x y ≡ digits low digit l x y
  digits_enough zero zero x y hk hl = refl
  digits_enough zero (suc l) zero y hk hl = refl
  digits_enough (suc k) zero zero y hk hl = refl
  digits_enough (suc k) (suc l) zero y hk hl = refl
  digits_enough zero (suc l) (suc x) y hk hl = absurd (omega arith)
  digits_enough (suc k) zero (suc x) y hk hl = absurd (omega arith)
  digits_enough (suc k) (suc l) (suc x) y hk hl =
      rw (digits_enough k l (suc x / 2) (y / 2) (omega arith) (omega arith))

  bitwise_unfold :
      (x y : ℕ)
      → bitwise low digit (suc x) y
        ≡ bitwise low digit (suc x / 2) (y / 2) * 2 + digit (suc x % 2) (y % 2)
  bitwise_unfold x y =
      omega (arith, digits_enough x (suc x / 2) (suc x / 2) (y / 2) (omega arith) (omega arith))

pub bit_and_step : (x y : ℕ) → bit_and x y ≡ bit_and (x / 2) (y / 2) * 2 + min (x % 2) (y % 2)
bit_and_step zero y = simp bit_and-bitwise (omega arith)
bit_and_step (suc x) y = simp bit_and-bitwise (bitwise_unfold (λ b. 0) min x y)

pub bit_or_step : (x y : ℕ) → bit_or x y ≡ bit_or (x / 2) (y / 2) * 2 + max (x % 2) (y % 2)
bit_or_step zero y = simp bit_or-bitwise (omega arith)
bit_or_step (suc x) y = simp bit_or-bitwise (bitwise_unfold (λ b. b) max x y)

differ-eq-sub : (a b : ℕ) → differ a b ≡ (a - b) + (b - a)
differ-eq-sub zero b = omega arith
differ-eq-sub (suc a) zero = omega arith
differ-eq-sub (suc a) (suc b) = omega (arith, differ-eq-sub a b)

pub bit_xor_step :
    (x y : ℕ) → bit_xor x y ≡ bit_xor (x / 2) (y / 2) * 2 + ((x % 2 - y % 2) + (y % 2 - x % 2))
bit_xor_step zero y = simp bit_xor-bitwise (omega arith)
bit_xor_step (suc x) y =
    simp bit_xor-bitwise
      (omega (arith, bitwise_unfold (λ b. b) differ x y, differ-eq-sub (suc x % 2) (y % 2)))
