-- ===== src/Arch/Pmm/Runs.antt =====
-- Setting and clearing runs of bits.
use griffin.Common.{
  ℕ, zero, suc, ◌+◌, ◌*◌, ◌≤◌, ◌<◌, ◌≡◌, refl, ◌∙◌, Bool, true, false, ◌&&◌, arith, Outcome, done,
  ltb, leb, if◌then◌else◌,
}
use griffin.Utils.Bitmap.{Bitmap, set, clear}
use griffin.Utils.Bitmap.Laws.{bit_of, IsValid, IsWrite, set-IsWrite, clear-IsWrite}
use griffin.Arch.Pmm.{for_bits}

abbrev pub within : ℕ → ℕ → ℕ → Bool
within page n j = leb page j && ltb j (page + n)

-- `result` is a normal return whose bitmap has `v` in `[page, page + n)` and is `b` elsewhere.
pub record IsRunWrite (b : Bitmap) (page n : ℕ) (v : Bool) (result : Outcome Bitmap) : Type 0 where
  pub out : Bitmap
  pub returns : result ≡ done out
  pub valid : IsValid out
  pub size : out.size ≡ b.size
  pub data_ptr : out.data_ptr ≡ b.data_ptr
  pub bits : (j : ℕ) → bit_of out j ≡ (if within page n j then v else bit_of b j)

module _ (op : Bitmap → ℕ → Outcome Bitmap) (v : Bool)
    (one : (b : Bitmap) → IsValid b → (i : ℕ) → i < b.size * 8 → IsWrite b i v (op b i)) where
  for_bits-IsRunWrite :
      (b : Bitmap)
      → IsValid b
      → (page n : ℕ) → page + n ≤ b.size * 8
      → IsRunWrite b page n v (for_bits op page n b)
  unfolding for_bits
  for_bits-IsRunWrite b ok page zero h = record {
    out = b;
    returns = refl;
    valid = ok;
    size = refl;
    data_ptr = refl;
    bits = λ j. ground arith;
  }
  for_bits-IsRunWrite b ok page (suc n) h =
      let first = one b ok page (omega arith) in
      let rest =
        for_bits-IsRunWrite first.out first.valid (page + 1) n (omega (arith, first.size)) in
      record {
        out = rest.out;
        returns = rw first.returns rest.returns;
        valid = rest.valid;
        size = rest.size ∙ first.size;
        data_ptr = rest.data_ptr ∙ first.data_ptr;
        bits = λ j. ground (arith, rest.bits j, first.bits j);
      }

pub set_run :
    {b : Bitmap}
    → IsValid b
    → (page n : ℕ) → page + n ≤ b.size * 8
    → IsRunWrite b page n true (for_bits set page n b)
set_run {b} ok = for_bits-IsRunWrite set true (λ b' ok' i. set-IsWrite ok' i) b ok

pub clear_run :
    {b : Bitmap}
    → IsValid b
    → (page n : ℕ) → page + n ≤ b.size * 8
    → IsRunWrite b page n false (for_bits clear page n b)
clear_run {b} ok = for_bits-IsRunWrite clear false (λ b' ok' i. clear-IsWrite ok' i) b ok
