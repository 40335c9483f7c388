-- ===== src/Mm/Slab/Objects.antt =====
-- One slab: `free_objs` counts the clear bits, `slab_alloc` takes a free object and
-- `slab_dealloc` gives an object back.
use griffin.Common.{
  ℕ, zero, suc, ◌+◌, ◌-◌, ◌*◌, ◌/◌, ◌^◌, ◌≤◌, ◌<◌, ◌≡◌, refl, Bool, true, false, Option, none, some,
  arith, Outcome, done, ◌>>=◌, inl, inr, Bool-cases, dec_lt, ltb, leb, ◌==◌, if◌then◌else◌,
}
use native.Mathlib.Nat.{mul-le-mul_right, mul-div_cancel}
use griffin.Utils.Bitmap.{Bitmap}
use griffin.Utils.Bitmap.Laws.{bit_of, IsValid, set-IsWrite, clear-IsWrite}
use griffin.Utils.Bitmap.Scan.{AllBits, IsScan, find_clear-IsScan}
use griffin.Mm.Slab.{Slab, objs_per_slab, take_obj, slab_alloc, slab_dealloc}

-- The number of clear bits below `n`.
unfoldable pub clear_bits : Bitmap → ℕ → ℕ
clear_bits b zero = 0
clear_bits b (suc n) = (if bit_of b n then 0 else 1) + clear_bits b n

pub record IsSlab (s : Slab) : Type 0 where
  pub valid : IsValid s.bitmap
  pub room : objs_per_slab ≤ s.bitmap.size * 8
  pub counted : s.free_objs ≡ clear_bits s.bitmap objs_per_slab
  pub sized : 0 < s.object_size
  pub fits : s.objects + objs_per_slab * s.object_size < 2 ^ 64

-- A write to a bit below `n` moves the count by one, a write elsewhere keeps it.
clear_bits-beyond :
    (b b' : Bitmap) (n i : ℕ) (v : Bool)
    → ((j : ℕ) → bit_of b' j ≡ (if i == j then v else bit_of b j))
    → n ≤ i
    → clear_bits b' n ≡ clear_bits b n
unfolding clear_bits
clear_bits-beyond b b' zero i v e h = refl
clear_bits-beyond b b' (suc n) i v e h =
    ground (arith, e n, clear_bits-beyond b b' n i v e (omega arith))

clear_bits-write :
    (b b' : Bitmap) (n i : ℕ) (v : Bool)
    → ((j : ℕ) → bit_of b' j ≡ (if i == j then v else bit_of b j))
    → i < n
    → clear_bits b' n + (if bit_of b i then 0 else 1) ≡ clear_bits b n + (if v then 0 else 1)
unfolding clear_bits
clear_bits-write b b' zero i v e h = absurd (omega arith)
clear_bits-write b b' (suc n) i v e h = elim (dec_lt i n) [
  | yes below ↦
      let same : bit_of b' n ≡ bit_of b n = ground (arith, e n) in
      rw same (omega (arith, clear_bits-write b b' n i v e below))
  | no top ↦
      let at : i ≡ n = omega arith in
      let here : bit_of b' n ≡ v = ground (arith, e n) in
      rw (here, at) (omega (arith, clear_bits-beyond b b' n i v e (omega arith)))
]

clear_bits-full : (b : Bitmap) (n : ℕ) → AllBits b true 0 n → clear_bits b n ≡ 0
unfolding clear_bits
clear_bits-full b zero all = refl
clear_bits-full b (suc n) all =
    rw (all n (omega arith) (omega arith))
      (omega (arith, clear_bits-full b n λ j p q. all j p (omega arith)))

clear_bits-some : (b : Bitmap) (n i : ℕ) → i < n → bit_of b i ≡ false → 0 < clear_bits b n
unfolding clear_bits
clear_bits-some b zero i h e = absurd (omega arith)
clear_bits-some b (suc n) i h e = elim (dec_lt i n) [
  | yes below ↦ omega (arith, clear_bits-some b n i below e)
  | no top ↦ let at : i ≡ n = omega arith in rw (← at, e) (omega arith)
]

clear_bits-le : (b : Bitmap) (n : ℕ) → clear_bits b n ≤ n
unfolding clear_bits
clear_bits-le b zero = omega arith
clear_bits-le b (suc n) = ground (arith, clear_bits-le b n)

-- The outcomes of `slab_alloc`: no object is free, or object `i` is, and `s'` is
-- the slab in which it is in use.
pub data IsTaken (s : Slab) : Outcome (Option ℕ × Slab) → Type 0 where
  full : s.free_objs ≡ 0 → AllBits s.bitmap true 0 objs_per_slab → IsTaken s (done (none, s))
  taken :
      (i : ℕ) (s' : Slab)
      → i < objs_per_slab
      → bit_of s.bitmap i ≡ false
      → IsSlab s'
      → s'.objects ≡ s.objects
      → s'.object_size ≡ s.object_size
      → s'.free_objs + 1 ≡ s.free_objs
      → ((j : ℕ) → bit_of s'.bitmap j ≡ (if i == j then true else bit_of s.bitmap j))
      → IsTaken s (done (some (s.objects + i * s.object_size), s'))

take_obj-IsTaken :
    (s : Slab) (ok : IsSlab s) (i : ℕ)
    → i < objs_per_slab
    → bit_of s.bitmap i ≡ false
    → IsTaken s (take_obj s (some i))
take_obj-IsTaken s ok i h free =
    let w = set-IsWrite ok.valid i (omega (arith, ok.room)) in
    let moved = clear_bits-write s.bitmap w.out objs_per_slab i true w.bits h in
    let some_free = clear_bits-some s.bitmap objs_per_slab i h free in
    let few : i * s.object_size ≤ 256 * s.object_size =
      mul-le-mul_right s.object_size (omega arith) in
    let p : leb 1 s.free_objs ≡ true = ground (arith, ok.counted, some_free) in
    let q : ltb (i * s.object_size) (2 ^ 64) ≡ true = ground (arith, few, ok.fits) in
    rw (w.returns, p, q)
      (taken i _ h free
        (record {
          valid = w.valid;
          room = omega (arith, w.size, ok.room);
          counted = ground (arith, moved, free, ok.counted);
          sized = ok.sized;
          fits = ok.fits;
        })
        refl refl (omega (arith, ok.counted, some_free)) w.bits)

-- On a well-formed slab `slab_alloc` takes a free object and stays well-formed, and returns null exactly where
-- `free_objs` is 0 and all 256 objects are in use.
pub slab_alloc-IsTaken : (s : Slab) → IsSlab s → IsTaken s (slab_alloc s)
unfolding slab_alloc
slab_alloc-IsTaken s ok = elim (Bool-cases (s.free_objs == 0)) [
  | inl none_left ↦ rw none_left (
      full (ground (arith, none_left)) λ j p q. elim (Bool-cases (bit_of s.bitmap j)) [
        | inl used ↦ used
        | inr free ↦
            absurd (
              ground
                (arith, none_left, ok.counted, clear_bits-some s.bitmap objs_per_slab j q free))
      ])
  | inr some_left ↦
      rw some_left
        (go (find_clear-IsScan ok.valid 0 objs_per_slab objs_per_slab (omega arith) ok.room))
]
  where
    go : {r : Outcome (Option ℕ)} → IsScan s.bitmap 0 objs_per_slab r → IsTaken s (r >>= take_obj s)
    go (IsScan.full all) =
        full (omega (arith, ok.counted, clear_bits-full s.bitmap objs_per_slab all)) all
    go (IsScan.hit i p q free all) = take_obj-IsTaken s ok i q free

-- `s'` is the slab `s` in which object `i` is free again.
pub record IsFreed (s : Slab) (i : ℕ) (result : Outcome Slab) : Type 0 where
  pub out : Slab
  pub returns : result ≡ done out
  pub ok : IsSlab out
  pub same_objects : out.objects ≡ s.objects
  pub same_size : out.object_size ≡ s.object_size
  pub one_more : out.free_objs ≡ s.free_objs + 1
  pub bits : (j : ℕ) → bit_of out.bitmap j ≡ (if i == j then false else bit_of s.bitmap j)

-- On a well-formed slab, `slab_dealloc` of the pointer to an object that is in use frees that object
-- and no other, counts it, and keeps the slab well-formed.
pub slab_dealloc-IsFreed :
    (s : Slab) (i : ℕ)
    → IsSlab s
    → i < objs_per_slab
    → bit_of s.bitmap i ≡ true
    → IsFreed s i (slab_dealloc (s.objects + i * s.object_size) s)
unfolding slab_dealloc
slab_dealloc-IsFreed s i ok h used =
    let w = clear-IsWrite ok.valid i (omega (arith, ok.room)) in
    let moved = clear_bits-write s.bitmap w.out objs_per_slab i false w.bits h in
    let at_most = clear_bits-le s.bitmap objs_per_slab in
    let back : s.objects + i * s.object_size - s.objects ≡ i * s.object_size = omega arith in
    let index : i * s.object_size / s.object_size ≡ i = mul-div_cancel i ok.sized in
    let p : leb s.objects (s.objects + i * s.object_size) ≡ true = ground arith in
    let q : (s.object_size == 0) ≡ false = ground (arith, ok.sized) in
    let r : ltb (s.free_objs + 1) (2 ^ 64) ≡ true = ground (arith, at_most, ok.counted) in
    record {
      out = record s { free_objs = s.free_objs + 1; bitmap = w.out };
      returns = rw (p, back, q, index, r, w.returns) refl;
      ok = record {
        valid = w.valid;
        room = omega (arith, w.size, ok.room);
        counted = ground (arith, moved, used, ok.counted);
        sized = ok.sized;
        fits = ok.fits;
      };
      same_objects = refl;
      same_size = refl;
      one_more = refl;
      bits = w.bits;
    }

-- An object of a well-formed slab that `slab_alloc` returned can be given back: every bit and the
-- count of free objects are as they were before.
pub slab_dealloc-slab_alloc :
    (s s' : Slab) (ptr : ℕ)
    → IsSlab s
    → slab_alloc s ≡ done (some ptr, s')
    → (s'' : Slab) × (slab_dealloc ptr s' ≡ done s'')
      × IsSlab s''
      × (s''.free_objs ≡ s.free_objs)
      × ((j : ℕ) → bit_of s''.bitmap j ≡ bit_of s.bitmap j)
slab_dealloc-slab_alloc s s' ptr ok e = go (slab_alloc-IsTaken s ok) e
  where
    go :
        {r : Outcome (Option ℕ × Slab)}
        → IsTaken s r
        → r ≡ done (some ptr, s')
        → (s'' : Slab) × (slab_dealloc ptr s' ≡ done s'')
          × IsSlab s''
          × (s''.free_objs ≡ s.free_objs)
          × ((j : ℕ) → bit_of s''.bitmap j ≡ bit_of s.bitmap j)
    go (full z all) e = absurd (ground arith)
    go (taken i t h free ok' at size count bits) e =
        let same : t ≡ s' = ground arith in
        let ptr_at : s.objects + i * s.object_size ≡ ptr = ground arith in
        let f = slab_dealloc-IsFreed t i ok' h (ground (arith, bits i)) in
        let here : t.objects + i * t.object_size ≡ ptr = rw (at, size) ptr_at in
        (
          f.out,
          rw (← same, ← here) f.returns,
          f.ok,
          omega (arith, f.one_more, count),
          λ j. ground (arith, f.bits j, bits j, free),
        )
