-- ===== src/Examples/Words.antt =====
-- Rounding and bitmaps.
use griffin.Common.{ℕ, zero, suc, ◌<◌, ◌≡◌, refl, false, [], ◌∷◌, get_or, arith, done, panic, some}
use griffin.Utils.Math.{div_ceil, round_up}
use griffin.Utils.Bitmap.{Bitmap, set, toggle, clear, is_set, find_clear}
use griffin.Utils.Bitmap.Laws.{IsValid}

abbrev two_bytes : Bitmap
two_bytes = record { data_ptr = 0; bytes = 0xff ∷ 0x05 ∷ []; size = 2 }

all_bytes : (a b i : ℕ) → a < 256 → b < 256 → get_or (a ∷ b ∷ []) i 0 < 256
all_bytes a b zero ha hb = ha
all_bytes a b (suc zero) ha hb = hb
all_bytes a b (suc (suc i)) ha hb = omega arith

two_bytes-IsValid : IsValid two_bytes
two_bytes-IsValid = record {
  same_size = refl;
  is_byte = λ i. all_bytes 0xff 5 i (omega arith) (omega arith);
}

rounding : (div_ceil 4097 4096 ≡ done 2) × (round_up 13 4 ≡ done 16) × (div_ceil 1 0 ≡ panic)
unfolding div_ceil round_up
rounding = (refl, refl, refl)

bit_runs :
    (is_set two_bytes 9 ≡ done false)
    × (is_set two_bytes 16 ≡ panic)
    × (set two_bytes 9 ≡ done (record two_bytes { bytes = 0xff ∷ 0x07 ∷ [] }))
    × (clear two_bytes 10 ≡ done (record two_bytes { bytes = 0xff ∷ 0x01 ∷ [] }))
    × (toggle two_bytes 0 ≡ done (record two_bytes { bytes = 0xfe ∷ 0x05 ∷ [] }))
    × (find_clear two_bytes 0 16 ≡ done (some 9))
unfolding is_set set clear toggle find_clear
bit_runs = (refl, refl, refl, refl, refl, refl)
