-- ===== src/Utils/Bitmap/Scan.antt =====
-- The search for the first clear bit.
use griffin.Common.{
  ℕ, zero, suc, ◌+◌, ◌*◌, ◌≤◌, ◌<◌, ◌≡◌, Bool, true, false, Option, none, some, arith, Outcome,
  done, inl, inr, Bool-cases, dec_lt,
}
use griffin.Utils.Bitmap.{Bitmap, find_clear}
use griffin.Utils.Bitmap.Laws.{bit_of, IsValid, is_set_lem}

-- Every bit of `[lo, hi)` is `v`.
abbrev pub AllBits : Bitmap → Bool → ℕ → ℕ → Type 0
AllBits b v lo hi = (j : ℕ) → lo ≤ j → j < hi → bit_of b j ≡ v

-- The two outcomes of a search of `[lo, hi)`: no bit is clear, or `i` is the first that is.
pub data IsScan (b : Bitmap) (lo hi : ℕ) : Outcome (Option ℕ) → Type 0 where
  full : AllBits b true lo hi → IsScan b lo hi (done none)
  hit :
      (i : ℕ)
      → lo ≤ i
      → i < hi
      → bit_of b i ≡ false
      → AllBits b true lo i
      → IsScan b lo hi (done (some i))

pub AllBits-cons :
    (b : Bitmap) (v : Bool) {lo hi : ℕ}
    → bit_of b lo ≡ v
    → AllBits b v (lo + 1) hi
    → AllBits b v lo hi
AllBits-cons b v {lo} first rest j p q = elim (dec_lt lo j) [
  | yes more ↦ rest j (omega arith) q
  | no none_more ↦ let e : lo ≡ j = omega arith in rw (← e) first
]

IsScan-cons :
    {b : Bitmap} {lo hi : ℕ} {r : Outcome (Option ℕ)}
    → bit_of b lo ≡ true
    → IsScan b (lo + 1) hi r
    → IsScan b lo hi r
IsScan-cons first (full all) = full (AllBits-cons _ _ first all)
IsScan-cons first (hit i p q clear_i all) =
    hit i (omega arith) q clear_i (AllBits-cons _ _ first all)

-- Over bits that the bitmap has, the scan returns the first clear one, or nothing where all are set.
pub find_clear-IsScan :
    {b : Bitmap} (ok : IsValid b) (lo left hi : ℕ)
    → lo + left ≡ hi
    → hi ≤ b.size * 8
    → IsScan b lo hi (find_clear b lo left)
unfolding find_clear
find_clear-IsScan ok lo zero hi e h = full (λ j p q. absurd (omega arith))
find_clear-IsScan {b} ok lo (suc left) hi e h =
    let inside : lo < b.size * 8 = omega arith in
    rw (is_set_lem ok lo inside) (elim (Bool-cases (bit_of b lo)) [
      | inl set_lo ↦
          rw set_lo (IsScan-cons set_lo (find_clear-IsScan ok (lo + 1) left hi (omega arith) h))
      | inr clear_lo ↦
          rw clear_lo (hit lo (omega arith) (omega arith) clear_lo (λ j p q. absurd (omega arith)))
    ])
