-- ===== src/Bits/Digits.antt =====
-- The binary digit of a number at an index, and what `|` and `&` do to it, at every width.
use griffin.Common.{
  ℕ, zero, suc, ◌+◌, ◌-◌, ◌/◌, ◌%◌, ◌≤◌, min, max, bit_and, bit_or, bit_xor, ◌≡◌, refl, arith,
}
use griffin.Bits.Step.{bit_and_step, bit_or_step, bit_xor_step}

-- The digit of `x` at index `i`, 0 or 1.
abbrev pub bit_at : ℕ → ℕ → ℕ
bit_at zero x = x % 2
bit_at (suc i) x = bit_at i (x / 2)

pub bit_at-le : (i x : ℕ) → bit_at i x ≤ 1
bit_at-le zero x = omega arith
bit_at-le (suc i) x = bit_at-le i (x / 2)

pub bit_at-zero : (i : ℕ) → bit_at i 0 ≡ 0
bit_at-zero zero = refl
bit_at-zero (suc i) = bit_at-zero i

half-bit_or : (x y : ℕ) → bit_or x y / 2 ≡ bit_or (x / 2) (y / 2)
half-bit_or x y = omega (arith, bit_or_step x y)

half-bit_and : (x y : ℕ) → bit_and x y / 2 ≡ bit_and (x / 2) (y / 2)
half-bit_and x y = omega (arith, bit_and_step x y)

pub bit_at-bit_or : (i x y : ℕ) → bit_at i (bit_or x y) ≡ max (bit_at i x) (bit_at i y)
bit_at-bit_or zero x y = omega (arith, bit_or_step x y)
bit_at-bit_or (suc i) x y = rw half-bit_or (bit_at-bit_or i (x / 2) (y / 2))

pub bit_at-bit_and : (i x y : ℕ) → bit_at i (bit_and x y) ≡ min (bit_at i x) (bit_at i y)
bit_at-bit_and zero x y = omega (arith, bit_and_step x y)
bit_at-bit_and (suc i) x y = rw half-bit_and (bit_at-bit_and i (x / 2) (y / 2))

half-bit_xor : (x y : ℕ) → bit_xor x y / 2 ≡ bit_xor (x / 2) (y / 2)
half-bit_xor x y = omega (arith, bit_xor_step x y)

pub bit_at-bit_xor :
    (i x y : ℕ) → bit_at i (bit_xor x y) ≡ (bit_at i x - bit_at i y) + (bit_at i y - bit_at i x)
bit_at-bit_xor zero x y = omega (arith, bit_xor_step x y)
bit_at-bit_xor (suc i) x y = rw half-bit_xor (bit_at-bit_xor i (x / 2) (y / 2))

eq_of_bits_below : (n x y : ℕ) → x ≤ n → y ≤ n → ((i : ℕ) → bit_at i x ≡ bit_at i y) → x ≡ y
eq_of_bits_below zero x y hx hy h = omega arith
eq_of_bits_below (suc n) zero zero hx hy h = refl
eq_of_bits_below (suc n) (suc x) y hx hy h = omega (
  arith,
  h 0,
  eq_of_bits_below n (suc x / 2) (y / 2) (omega arith) (omega arith) (λ i. h (suc i)),
)
eq_of_bits_below (suc n) zero (suc y) hx hy h = omega (
  arith,
  h 0,
  eq_of_bits_below n (zero / 2) (suc y / 2) (omega arith) (omega arith) (λ i. h (suc i)),
)

-- Two numbers with the same digits are equal.
pub eq_of_bits : (x y : ℕ) → ((i : ℕ) → bit_at i x ≡ bit_at i y) → x ≡ y
eq_of_bits x y h = eq_of_bits_below (max x y) x y (omega arith) (omega arith) h

-- `&` distributes over `|`.
pub bit_and-bit_or : (x y m : ℕ) → bit_and (bit_or x y) m ≡ bit_or (bit_and x m) (bit_and y m)
bit_and-bit_or x y m = eq_of_bits _ _ λ i. omega (
  arith,
  bit_at-bit_and i (bit_or x y) m,
  bit_at-bit_or i x y,
  bit_at-bit_or i (bit_and x m) (bit_and y m),
  bit_at-bit_and i x m,
  bit_at-bit_and i y m,
)

pub bit_or_comm : (x y : ℕ) → bit_or x y ≡ bit_or y x
bit_or_comm x y = eq_of_bits _ _ λ i. omega (arith, bit_at-bit_or i x y, bit_at-bit_or i y x)

pub bit_or_identity_left : (x : ℕ) → bit_or 0 x ≡ x
bit_or_identity_left x =
    eq_of_bits (bit_or 0 x) x λ i. omega (arith, bit_at-bit_or i 0 x, bit_at-zero i)

pub bit_and_comm : (x y : ℕ) → bit_and x y ≡ bit_and y x
bit_and_comm x y = eq_of_bits _ _ λ i. omega (arith, bit_at-bit_and i x y, bit_at-bit_and i y x)
