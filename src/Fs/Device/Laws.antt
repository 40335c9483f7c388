-- ===== src/Fs/Device/Laws.antt =====
-- What was written is read back, and what lies elsewhere stays.
use griffin.Common.{
  ℕ, zero, suc, ◌+◌, ◌-◌, ◌≤◌, ◌<◌, ◌≡◌, ◌⊎◌, inl, inr, refl, ap, ap₂, ◌∙◌, true, false, List, [],
  ◌∷◌, length, get_or, leb, ltb, arith,
}
use griffin.Fs.Device.{slice, patch}

pub slice-ext :
    (f g : ℕ → ℕ) (pos n : ℕ)
    → ((a : ℕ) → pos ≤ a → a < pos + n → f a ≡ g a)
    → slice f pos n ≡ slice g pos n
unfolding slice
slice-ext f g pos zero h = refl
slice-ext f g pos (suc n) h =
    ap₂ ◌∷◌ (h pos (omega arith) (omega arith))
      (slice-ext f g (pos + 1) n (λ a p q. h a (omega arith) (omega arith)))

pub length-slice : (f : ℕ → ℕ) (pos n : ℕ) → length (slice f pos n) ≡ n
unfolding slice
length-slice f pos zero = refl
length-slice f pos (suc n) = ap suc (length-slice f (pos + 1) n)

pub get_or-slice : (f : ℕ → ℕ) (pos n i : ℕ) → i < n → get_or (slice f pos n) i 0 ≡ f (pos + i)
unfolding slice
get_or-slice f pos zero i h = absurd (omega arith)
get_or-slice f pos (suc n) zero h = ap f (omega arith)
get_or-slice f pos (suc n) (suc i) h =
    get_or-slice f (pos + 1) n i (omega arith) ∙ ap f (omega arith)

pub slice_of_list :
    (f : ℕ → ℕ) (pos : ℕ) (bs : List ℕ)
    → ((i : ℕ) → i < length bs → f (pos + i) ≡ get_or bs i 0)
    → slice f pos (length bs) ≡ bs
unfolding slice
slice_of_list f pos [] h = refl
slice_of_list f pos (b ∷ bs) h =
    ap₂ ◌∷◌ (ap f (omega arith) ∙ h 0 (omega arith))
      (slice_of_list f (pos + 1) bs (λ i p. ap f (omega arith) ∙ h (suc i) (omega arith)))

pub patch-inside :
    (f : ℕ → ℕ) (pos : ℕ) (bs : List ℕ) (i : ℕ)
    → i < length bs
    → patch f pos bs (pos + i) ≡ get_or bs i 0
unfolding patch
patch-inside f pos bs i h =
    let p : leb pos (pos + i) ≡ true = ground arith in
    let q : ltb (pos + i) (pos + length bs) ≡ true = ground arith in
    let r : pos + i - pos ≡ i = omega arith in rw (p, q, r) refl

pub patch-outside :
    (f : ℕ → ℕ) (pos : ℕ) (bs : List ℕ) (a : ℕ)
    → (a < pos) ⊎ (pos + length bs ≤ a)
    → patch f pos bs a ≡ f a
unfolding patch
patch-outside f pos bs a (inl below) = let p : leb pos a ≡ false = ground arith in rw p refl
patch-outside f pos bs a (inr above) =
    let p : leb pos a ≡ true = ground arith in
    let q : ltb a (pos + length bs) ≡ false = ground arith in rw (p, q) refl

-- A write is read back.
pub slice-patch : (f : ℕ → ℕ) (pos : ℕ) (bs : List ℕ) → slice (patch f pos bs) pos (length bs) ≡ bs
slice-patch f pos bs = slice_of_list (patch f pos bs) pos bs (patch-inside f pos bs)

-- A write elsewhere is not seen.
pub slice-patch_apart :
    (f : ℕ → ℕ) (pos pos' n : ℕ) (bs : List ℕ)
    → (pos' + n ≤ pos) ⊎ (pos + length bs ≤ pos')
    → slice (patch f pos bs) pos' n ≡ slice f pos' n
slice-patch_apart f pos pos' n bs (inl before) =
    slice-ext (patch f pos bs) f pos' n (λ a p q. patch-outside f pos bs a (inl (omega arith)))
slice-patch_apart f pos pos' n bs (inr behind) =
    slice-ext (patch f pos bs) f pos' n (λ a p q. patch-outside f pos bs a (inr (omega arith)))
