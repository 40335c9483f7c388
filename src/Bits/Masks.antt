-- ===== src/Bits/Masks.antt =====
-- `|`, `&` and shifts as arithmetic: single bits, low masks, and fields that do not overlap.
use native.Mathlib.Nat.{pow-suc, one-le-pow, div-div-eq-div-mul, div-add-mod'}
use griffin.Common.{
  ℕ, zero, suc, ◌+◌, ◌-◌, ◌*◌, ◌/◌, ◌%◌, ◌^◌, ◌≤◌, ◌<◌, bit_and, bit_or, bit_xor, ◌≡◌, refl, sym,
  ap, arith, ◌==◌, if◌then◌else◌,
}
use griffin.Bits.Step.{bit_and_step, bit_or_step, bit_xor_step}
use griffin.Bits.Digits.{bit_at, bit_at-zero, bit_at-bit_or, bit_at-bit_and, eq_of_bits}

pub bit_or-zero : (x : ℕ) → bit_or x 0 ≡ x
bit_or-zero x = eq_of_bits _ _ λ i. omega (arith, bit_at-bit_or i x 0, bit_at-zero i)

pub bit_and-zero : (x : ℕ) → bit_and x 0 ≡ 0
bit_and-zero x = eq_of_bits _ _ λ i. omega (arith, bit_at-bit_and i x 0, bit_at-zero i)

double_mul : (m k : ℕ) → m * 2 ^ suc k ≡ 2 * (m * 2 ^ k)
double_mul m k = omega (arith, ap (λ (t : ℕ). m * t) (pow-suc 2 k))

half_shift : (x k : ℕ) → x / 2 ^ suc k ≡ x / 2 / 2 ^ k
half_shift x k =
    let e : 2 ^ suc k ≡ 2 * 2 ^ k = omega (arith, pow-suc 2 k) in
    rw e (sym (div-div-eq-div-mul x 2 (2 ^ k)))

mod_pow : (x k : ℕ) → x % 2 ^ suc k ≡ 2 * (x / 2 % 2 ^ k) + x % 2
mod_pow x k = omega (
  arith,
  half_shift x k,
  double_mul (x / 2 / 2 ^ k) k,
  div-add-mod' x (2 ^ suc k),
  div-add-mod' (x / 2) (2 ^ k),
  ap (λ (t : ℕ). t * 2 ^ suc k) (half_shift x k),
)

half_double : (m k : ℕ) → m * 2 ^ suc k / 2 ≡ m * 2 ^ k
half_double m k = omega (arith, double_mul m k)

-- The digit of a power of two.
pub bit_at-pow : (i k : ℕ) → bit_at i (2 ^ k) ≡ (if i == k then 1 else 0)
bit_at-pow zero zero = refl
bit_at-pow zero (suc k) = ground (arith, pow-suc 2 k)
bit_at-pow (suc i) zero = ground (arith, bit_at-zero i)
bit_at-pow (suc i) (suc k) =
    let e : 2 ^ suc k / 2 ≡ 2 ^ k = omega (arith, pow-suc 2 k) in
    rw e (ground (arith, bit_at-pow i k))

-- `x & (m << k)`
pub bit_and-shl : (k x m : ℕ) → bit_and x (m * 2 ^ k) ≡ bit_and (x / 2 ^ k) m * 2 ^ k
bit_and-shl zero x m =
    let e : m * 1 ≡ m = omega arith in let d : x / 1 ≡ x = omega arith in rw (e, d) (omega arith)
bit_and-shl (suc k) x m = omega (
  arith,
  bit_and_step x (m * 2 ^ suc k),
  ap (bit_and (x / 2)) (half_double m k),
  bit_and-shl k (x / 2) m,
  double_mul m k,
  double_mul (bit_and (x / 2 / 2 ^ k) m) k,
  ap (λ (t : ℕ). bit_and t m * 2 ^ suc k) (half_shift x k),
)

-- `x & (1 << k)` is the digit at `k`, in its place.
pub bit_and-pow : (k x : ℕ) → bit_and x (2 ^ k) ≡ bit_at k x * 2 ^ k
bit_and-pow zero x = omega (arith, bit_and_step x 1, bit_and-zero (x / 2))
bit_and-pow (suc k) x = omega (
  arith,
  bit_and_step x (2 ^ suc k),
  pow-suc 2 k,
  double_mul (bit_at k (x / 2)) k,
  bit_and-pow k (x / 2),
  ap (bit_and (x / 2)) (let e : 2 ^ suc k / 2 ≡ 2 ^ k = omega (arith, pow-suc 2 k) in e),
)

-- `x & ((1 << k) - 1)` is a remainder.
pub bit_and_mask : (k x : ℕ) → bit_and x (2 ^ k - 1) ≡ x % 2 ^ k
bit_and_mask zero x = omega (arith, bit_and-zero x)
bit_and_mask (suc k) x = omega (
  arith,
  bit_and_step x (2 ^ suc k - 1),
  pow-suc 2 k,
  one-le-pow k 2,
  mod_pow x k,
  bit_and_mask k (x / 2),
  ap (bit_and (x / 2))
      (let e : (2 ^ suc k - 1) / 2 ≡ 2 ^ k - 1 = omega (arith, pow-suc 2 k, one-le-pow k 2) in e),
)

-- `(q << k) | r` is a sum where `r` fits below.
pub bit_or_fields : (k q r : ℕ) → r < 2 ^ k → bit_or (q * 2 ^ k) r ≡ q * 2 ^ k + r
bit_or_fields zero q r h = let e : r ≡ 0 = omega arith in rw (e, bit_or-zero) (omega arith)
bit_or_fields (suc k) q r h = omega (
  arith,
  bit_or_step (q * 2 ^ suc k) r,
  double_mul q k,
  pow-suc 2 k,
  bit_or_fields k q (r / 2),
  ap (λ (t : ℕ). bit_or t (r / 2)) (half_double q k),
)

-- `|` of two numbers below `2 ^ w` is below `2 ^ w`.
pub bit_or-lt : (w x y : ℕ) → x < 2 ^ w → y < 2 ^ w → bit_or x y < 2 ^ w
bit_or-lt zero x y hx hy =
    let e : x ≡ 0 = omega arith in let d : y ≡ 0 = omega arith in rw (e, d) (omega arith)
bit_or-lt (suc w) x y hx hy =
    omega (arith, pow-suc 2 w, bit_or_step x y, bit_or-lt w (x / 2) (y / 2))

pub bit_xor-lt : (w x y : ℕ) → x < 2 ^ w → y < 2 ^ w → bit_xor x y < 2 ^ w
bit_xor-lt zero x y hx hy =
    let e : x ≡ 0 = omega arith in let d : y ≡ 0 = omega arith in rw (e, d) (omega arith)
bit_xor-lt (suc w) x y hx hy =
    omega (arith, pow-suc 2 w, bit_xor_step x y, bit_xor-lt w (x / 2) (y / 2))

pub bit_and-le : (w x y : ℕ) → x < 2 ^ w → bit_and x y ≤ x
bit_and-le zero x y hx =
    let e : x ≡ 0 = omega arith in rw e (omega (arith, bit_and_step 0 y, bit_and_zero_left y))
  where
    bit_and_zero_left : (b : ℕ) → bit_and 0 b ≡ 0
    bit_and_zero_left b = eq_of_bits _ _ λ i. omega (arith, bit_at-bit_and i 0 b, bit_at-zero i)
bit_and-le (suc w) x y hx =
    omega (arith, pow-suc 2 w, bit_and_step x y, bit_and-le w (x / 2) (y / 2))
