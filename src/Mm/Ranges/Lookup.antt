-- ===== src/Mm/Ranges/Lookup.antt =====
-- `get_range` finds the first range that has the address strictly inside it.
use griffin.Common.{
  ℕ, zero, suc, ◌+◌, ◌^◌, ◌<◌, ◌≤◌, ◌≡◌, ◌⊎◌, inl, inr, refl, true, false, Option, none, some, List,
  [], ◌∷◌, get_elem?, arith, Outcome, done, Bool-cases, ltb, dec_lt,
}
use griffin.Mm.Ranges.{VirtMemoryRange, inside, get_range}

module _ {Fs : Type 0} (a : ℕ) where
  abbrev pub Inside : VirtMemoryRange Fs → Type 0
  Inside r = (r.base < a) × (a < r.base + r.length)

  -- No range has the address strictly inside, or the one at `k` is the first that does.
  pub data IsRange (ranges : List (VirtMemoryRange Fs))
      : Outcome (Option (VirtMemoryRange Fs)) → Type 0 where
    outside :
        ((j : ℕ) (d : VirtMemoryRange Fs) → get_elem? ranges j ≡ some d → ¬ Inside d)
        → IsRange ranges (done none)
    within :
        (k : ℕ) (r : VirtMemoryRange Fs)
        → get_elem? ranges k ≡ some r
        → Inside r
        → ((j : ℕ) (d : VirtMemoryRange Fs) → j < k → get_elem? ranges j ≡ some d → ¬ Inside d)
        → IsRange ranges (done (some r))

  pub inside_yes :
      (r : VirtMemoryRange Fs) → r.base + r.length < 2 ^ 64 → Inside r → inside a r ≡ done true
  inside_yes r fits (lo, hi) =
      let p : ltb r.base a ≡ true = ground arith in
      let q : ltb (r.base + r.length) (2 ^ 64) ≡ true = ground arith in
      let t : ltb a (r.base + r.length) ≡ true = ground arith in rw (p, q, t) refl

  inside_no :
      (r : VirtMemoryRange Fs)
      → r.base + r.length < 2 ^ 64
      → (a ≤ r.base) ⊎ (r.base + r.length ≤ a)
      → inside a r ≡ done false
  inside_no r fits (inl below) = let p : ltb r.base a ≡ false = ground arith in rw p refl
  inside_no r fits (inr above) = elim (Bool-cases (ltb r.base a)) [
    | inr p ↦ rw p refl
    | inl p ↦
        let q : ltb (r.base + r.length) (2 ^ 64) ≡ true = ground arith in
        let t : ltb a (r.base + r.length) ≡ false = ground arith in rw (p, q, t) refl
  ]

  pub inside-cases :
      (r : VirtMemoryRange Fs)
      → r.base + r.length < 2 ^ 64
      → ((inside a r ≡ done true) × Inside r) ⊎ ((inside a r ≡ done false) × ¬ Inside r)
  inside-cases r fits = elim (dec_lt r.base a) [
    | no low ↦ inr (inside_no r fits (inl (omega arith)), λ h. low h.0)
    | yes lo ↦ elim (dec_lt a (r.base + r.length)) [
      | no high ↦ inr (inside_no r fits (inr (omega arith)), λ h. high h.1)
      | yes hi ↦ inl (inside_yes r fits (lo, hi), (lo, hi))
    ]
  ]

  skip :
      (r : VirtMemoryRange Fs) {rest : List (VirtMemoryRange Fs)}
      {o : Outcome (Option (VirtMemoryRange Fs))}
      → ¬ Inside r
      → IsRange rest o
      → IsRange (r ∷ rest) o
  skip r {rest} missed (outside all) = outside every
    where
      every : (j : ℕ) (d : VirtMemoryRange Fs) → get_elem? (r ∷ rest) j ≡ some d → ¬ Inside d
      every zero d e = let same : r ≡ d = ground arith in rw (← same) missed
      every (suc j) d e = all j d e
  skip r {rest} missed (within k found at holds first) = within (suc k) found at holds every
    where
      every :
          (j : ℕ) (d : VirtMemoryRange Fs)
          → j < suc k
          → get_elem? (r ∷ rest) j ≡ some d
          → ¬ Inside d
      every zero d h e = let same : r ≡ d = ground arith in rw (← same) missed
      every (suc j) d h e = first j d (omega arith) e

  -- Where every range ends below 2^64, `get_range` returns the first range that starts below the
  -- address and ends above it, or nothing where there is none: the first address of a range is not
  -- found in it.
  pub get_range-IsRange :
      (ranges : List (VirtMemoryRange Fs))
      → ((j : ℕ) (d : VirtMemoryRange Fs)
          → get_elem? ranges j ≡ some d
          → d.base + d.length < 2 ^ 64)
      → IsRange ranges (get_range a ranges)
  unfolding get_range
  get_range-IsRange [] fits = outside λ j d e. absurd (ground arith)
  get_range-IsRange (r ∷ rest) fits =
      let rest_lem = get_range-IsRange rest (λ j d e. fits (suc j) d e) in
      elim (inside-cases r (fits 0 r refl)) [
        | inl (e, h) ↦ rw e (within 0 r refl h (λ j d lt q. absurd (omega arith)))
        | inr (e, h) ↦ rw e (skip r h rest_lem)
      ]
