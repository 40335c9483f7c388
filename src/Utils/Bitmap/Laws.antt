-- ===== src/Utils/Bitmap/Laws.antt =====
-- A bitmap stands for a function from indices to Booleans, and each operation changes it at one index.
use griffin.Common.{
  ℕ, zero, suc, List, [], ◌∷◌, ◌≤◌, ◌-◌, ◌*◌, ◌/◌, ◌%◌, ◌^◌, ◌<◌, bit_and, bit_or, bit_xor, ◌≡◌,
  refl, ◌≢◌, ap, Bool, true, false, not, some, arith, length, get_elem?, get_or, set as set_elem,
  Outcome, done, ◌==◌, if◌then◌else◌, ◌<<<◌, length-set, length-replicate, get_or-replicate,
  replicate, ==_iff, ltb, ltb→lt, dec_lt, ℕ_discrete, get_elem?-eq-get_or, get_or-set_self,
  get_or-set_ne,
}
use native.Mathlib.Nat.{one-le-pow}
use griffin.Bits.Tables.{all_below, below_sound}
use griffin.Bits.Digits.{
  bit_at, bit_at-bit_or, bit_at-bit_and, bit_at-bit_xor, bit_at-le, bit_at-zero,
}
use griffin.Bits.Masks.{bit_at-pow, bit_and-pow, bit_or-lt, bit_xor-lt, bit_and-le}
use griffin.Utils.Bitmap.{Bitmap, modify, set, toggle, clear, is_set, from_raw_ptr}

abbrev pub byte_of : Bitmap → ℕ → ℕ
byte_of b i = get_or b.bytes i 0

-- The bit at an index; false beyond the end.
unfoldable pub bit_of : Bitmap → ℕ → Bool
bit_of b i = bit_at (i % 8) (byte_of b (i / 8)) == 1

bit_of_lem : (b : Bitmap) (i : ℕ) → bit_of b i ≡ (bit_at (i % 8) (byte_of b (i / 8)) == 1)
unfolding bit_of
bit_of_lem b i = refl

pub record IsValid (b : Bitmap) : Type 0 where
  pub same_size : length b.bytes ≡ b.size
  pub is_byte : (i : ℕ) → byte_of b i < 256

-- `result` is a normal return whose bitmap differs from `b` at most at `bit`, where it has `v`.
pub record IsWrite (b : Bitmap) (bit : ℕ) (v : Bool) (result : Outcome Bitmap) : Type 0 where
  pub out : Bitmap
  pub returns : result ≡ done out
  pub valid : IsValid out
  pub size : out.size ≡ b.size
  pub data_ptr : out.data_ptr ≡ b.data_ptr
  pub bits : (j : ℕ) → bit_of out j ≡ (if bit == j then v else bit_of b j)

shl_one : (k : ℕ) → 1 <<< k ≡ 2 ^ k
shl_one k = omega arith

bit_at-shl : (i k : ℕ) → bit_at i (1 <<< k) ≡ (if i == k then 1 else 0)
bit_at-shl i k = rw (shl_one k) (bit_at-pow i k)

one_bit_fits : (k : ℕ) → k < 8 → 1 <<< k < 2 ^ 8
one_bit_fits k h = ltb→lt _ _ (below_sound 8 (λ j. ltb (1 <<< j) (2 ^ 8)) k refl h)

-- The test that `is_set` makes, as a digit.
mask_test : (k x : ℕ) → not (bit_and x (1 <<< k) == 0) ≡ (bit_at k x == 1)
mask_test k x = elim (dec_lt 0 (bit_at k x)) [
  | yes h ↦
      let e : bit_at k x ≡ 1 = omega (arith, bit_at-le k x) in
      let p : bit_and x (1 <<< k) ≢ 0 = omega (
        arith,
        bit_and-pow k x,
        one-le-pow k 2,
        ap (bit_and x) (shl_one k),
        ap (λ (t : ℕ). t * 2 ^ k) e,
      ) in
      ground arith
  | no h ↦
      let e : bit_at k x ≡ 0 = omega arith in
      let p : bit_and x (1 <<< k) ≡ 0 =
        omega (arith, bit_and-pow k x, ap (bit_and x) (shl_one k), ap (λ (t : ℕ). t * 2 ^ k) e) in
      ground arith
]

-- The digits of the byte `!(1 << k)`.
not_bit : (k j : ℕ) → k < 8 → j < 8 → bit_at j (255 - 1 <<< k) ≡ (if j == k then 0 else 1)
not_bit k j hk hj =
    (==_iff _ _).0 (below_sound 8 (digit_ok k) j (below_sound 8 row_ok k table hk) hj)
  where
    digit_ok : ℕ → ℕ → Bool
    digit_ok k j = bit_at j (255 - 1 <<< k) == (if j == k then 0 else 1)

    row_ok : ℕ → Bool
    row_ok k = all_below 8 (digit_ok k)

    table : all_below 8 row_ok ≡ true
    table = refl

module _ {b : Bitmap} (ok : IsValid b) (bit : ℕ) (inside : bit < b.size * 8) where
  found : get_elem? b.bytes (bit / 8) ≡ some (byte_of b (bit / 8))
  found = get_elem?-eq-get_or b.bytes (bit / 8) 0 (omega (arith, ok.same_size))

  pub is_set_lem : is_set b bit ≡ done (bit_of b bit)
  unfolding is_set bit_of
  is_set_lem = rw (is_set, found, mask_test (bit % 8) (byte_of b (bit / 8))) refl

  bit_of_set :
      (new j : ℕ)
      → bit_of (record b { bytes = set_elem b.bytes (bit / 8) new }) j
        ≡ (if bit / 8 == j / 8 then bit_at (j % 8) new == 1 else bit_of b j)
  unfolding bit_of
  bit_of_set new j = elim (ℕ_discrete (bit / 8) (j / 8)) [
    | yes e ↦
        rw ((==_iff (bit / 8) (j / 8)).1 e) (
          rw (← e)
            (rw (get_or-set_self b.bytes (bit / 8) new 0 (omega (arith, ok.same_size))) refl))
    | no ne ↦ ground (arith, get_or-set_ne b.bytes (bit / 8) (j / 8) new 0)
  ]

  -- An operation on the byte that gives the digit `v` at its index and keeps the others.
  modify_lem :
      (op : ℕ → ℕ) (v : Bool)
      → ((x : ℕ) → x < 256 → op x < 256)
      → ((bit_at (bit % 8) (op (byte_of b (bit / 8))) == 1) ≡ v)
      → ((x j : ℕ) → j < 8 → j ≢ bit % 8 → bit_at j (op x) ≡ bit_at j x)
      → IsWrite b bit v (modify b bit op)
  modify_lem op v small here there = record {
    out = next;
    returns = unfold modify in rw (modify, found) refl;
    valid = record {
      same_size = omega (arith, ok.same_size, length-set b.bytes (bit / 8) new);
      is_byte = λ i. elim (ℕ_discrete (bit / 8) i) [
        | yes e ↦ rw (← e, at_byte) (small _ (ok.is_byte _))
        | no ne ↦ rw (get_or-set_ne b.bytes (bit / 8) i new 0 ne) (ok.is_byte i)
      ];
    };
    size = refl;
    data_ptr = refl;
    bits =
        λ j. ground (arith, bit_of_set new j, there (byte_of b (bit / 8)) (j % 8), bit_of_lem b j);
  }
    where
      new : ℕ
      new = op (byte_of b (bit / 8))

      next : Bitmap
      next = record b { bytes = set_elem b.bytes (bit / 8) new }

      at_byte : byte_of next (bit / 8) ≡ new
      at_byte = get_or-set_self b.bytes (bit / 8) new 0 (omega (arith, ok.same_size))

  -- `set` at an index of the bitmap makes that bit true and keeps every other.
  pub set-IsWrite : IsWrite b bit true (set b bit)
  unfolding set
  set-IsWrite =
      modify_lem (λ x. bit_or x (1 <<< (bit % 8))) true
        (λ x h. bit_or-lt 8 x (1 <<< (bit % 8)) h (one_bit_fits (bit % 8) (omega arith)))
        (ground (
          arith,
          bit_at-bit_or (bit % 8) (byte_of b (bit / 8)) (1 <<< (bit % 8)),
          bit_at-shl (bit % 8) (bit % 8),
          bit_at-le (bit % 8) (byte_of b (bit / 8)),
        ))
        (λ x j hj ne.
          ground
            (arith, bit_at-bit_or j x (1 <<< (bit % 8)), bit_at-shl j (bit % 8), bit_at-le j x))

  -- `clear` at an index of the bitmap makes that bit false and keeps every other.
  pub clear-IsWrite : IsWrite b bit false (clear b bit)
  unfolding clear
  clear-IsWrite =
      modify_lem (λ x. bit_and x (255 - 1 <<< (bit % 8))) false
        (λ x h. omega (arith, bit_and-le 8 x (255 - 1 <<< (bit % 8)) h))
        (ground (
          arith,
          bit_at-bit_and (bit % 8) (byte_of b (bit / 8)) (255 - 1 <<< (bit % 8)),
          not_bit (bit % 8) (bit % 8),
        ))
        (λ x j hj ne. ground (
          arith,
          bit_at-bit_and j x (255 - 1 <<< (bit % 8)),
          not_bit (bit % 8) j (omega arith) hj,
          bit_at-le j x,
        ))

  -- `toggle` at an index of the bitmap flips that bit and keeps every other.
  pub toggle-IsWrite : IsWrite b bit (not (bit_of b bit)) (toggle b bit)
  unfolding toggle bit_of
  toggle-IsWrite =
      modify_lem (λ x. bit_xor x (1 <<< (bit % 8))) (not (bit_of b bit))
        (λ x h. bit_xor-lt 8 x (1 <<< (bit % 8)) h (one_bit_fits (bit % 8) (omega arith)))
        (ground (
          arith,
          bit_at-bit_xor (bit % 8) (byte_of b (bit / 8)) (1 <<< (bit % 8)),
          bit_at-shl (bit % 8) (bit % 8),
          bit_at-le (bit % 8) (byte_of b (bit / 8)),
        ))
        (λ x j hj ne.
          ground
            (arith, bit_at-bit_xor j x (1 <<< (bit % 8)), bit_at-shl j (bit % 8), bit_at-le j x))

-- A bitmap of zero bytes.
abbrev pub zeros : ℕ → ℕ → Bitmap
zeros ptr n = record { data_ptr = ptr; bytes = replicate n 0; size = n }

pub zeros-IsValid : (ptr n : ℕ) → IsValid (zeros ptr n)
zeros-IsValid ptr n = record {
  same_size = length-replicate n 0;
  is_byte = λ i. rw (get_or-replicate {A = ℕ} n i 0) (omega arith);
}

pub bit_of-zeros : (ptr n j : ℕ) → bit_of (zeros ptr n) j ≡ false
unfolding bit_of
bit_of-zeros ptr n j = rw (get_or-replicate {A = ℕ} n (j / 8) 0, bit_at-zero (j % 8))

pub from_raw_ptr-zeros : (ptr n : ℕ) → from_raw_ptr ptr (replicate n 0) ≡ zeros ptr n
unfolding from_raw_ptr
from_raw_ptr-zeros ptr n = rw (length-replicate {A = ℕ} n 0)

get_or-beyond : (xs : List ℕ) (i : ℕ) → length xs ≤ i → get_or xs i 0 ≡ 0
get_or-beyond [] i h = refl
get_or-beyond (x ∷ xs) zero h = absurd (omega arith)
get_or-beyond (x ∷ xs) (suc i) h = get_or-beyond xs i (omega arith)

-- Beyond the end no bit is set.
pub bit_of-beyond : {b : Bitmap} → IsValid b → (j : ℕ) → b.size * 8 ≤ j → bit_of b j ≡ false
unfolding bit_of
bit_of-beyond {b} ok j h =
    rw (get_or-beyond b.bytes (j / 8) (omega (arith, ok.same_size)), bit_at-zero (j % 8)) refl
