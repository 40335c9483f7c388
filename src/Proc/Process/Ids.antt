-- ===== src/Proc/Process/Ids.antt =====
-- Numbers are handed out once each, the smallest free one first.
use griffin.Common.{
  ℕ, ◌*◌, ◌^◌, ◌%◌, ◌<◌, ◌≡◌, ◌≢◌, refl, true, false, Option, none, some, arith, Outcome, done,
  panic, ◌>>=◌, expect, ltb, ◌==◌, if◌then◌else◌,
}
use griffin.Utils.Bitmap.{Bitmap}
use griffin.Utils.Bitmap.Laws.{bit_of, IsValid, set-IsWrite}
use griffin.Utils.Bitmap.Scan.{AllBits, IsScan, find_clear-IsScan}
use griffin.Proc.Process.{
  SelectorValues, kernel_cs, kernel_ds, user_cs, user_ds, Thread, take_id, alloc_id, thread_new,
  thread, stack_selector, selector,
}

-- Every number is in use, or `i` is the least that is not and is taken.
pub data IsAllocId (b : Bitmap) : Outcome (Option ℕ × Bitmap) → Type 0 where
  exhausted : AllBits b true 0 (b.size * 8) → IsAllocId b (done (none, b))
  fresh :
      (i : ℕ) (b' : Bitmap)
      → i < b.size * 8
      → bit_of b i ≡ false
      → AllBits b true 0 i
      → IsValid b'
      → b'.size ≡ b.size
      → ((j : ℕ) → bit_of b' j ≡ (if i == j then true else bit_of b j))
      → IsAllocId b (done (some i, b'))

module _ {b : Bitmap} (ok : IsValid b) (small : b.size * 8 < 2 ^ 64) where
  -- On a valid bitmap of less than 2^64 bits `alloc_pid` and `alloc_tid` take the least free number,
  -- or return nothing and change nothing where every number is in use.
  pub alloc_id-IsAllocId : IsAllocId b (alloc_id (some b))
  unfolding alloc_id
  alloc_id-IsAllocId =
      let fits : ltb (b.size * 8) (2 ^ 64) ≡ true = ground arith in
      rw fits (go (find_clear-IsScan ok 0 (b.size * 8) (b.size * 8) (omega arith) (omega arith)))
    where
      go : {r : Outcome (Option ℕ)} → IsScan b 0 (b.size * 8) r → IsAllocId b (r >>= take_id b)
      go (IsScan.full all) = exhausted all
      go (IsScan.hit i p q free all) =
          let w = set-IsWrite ok i q in
          rw w.returns (fresh i w.out q free all w.valid w.size w.bits)

-- Two numbers that are handed out one after the other, from a valid bitmap of less than 2^64 bits,
-- are different.
pub alloc_id-alloc_id_distinct :
    {b b1 b2 : Bitmap} (i j : ℕ)
    → IsValid b
    → b.size * 8 < 2 ^ 64
    → alloc_id (some b) ≡ done (some i, b1)
    → alloc_id (some b1) ≡ done (some j, b2)
    → i ≢ j
alloc_id-alloc_id_distinct {b} {b1} {b2} i j ok small e1 e2 = first (alloc_id-IsAllocId ok small) e1
  where
    second :
        {r : Outcome (Option ℕ × Bitmap)}
        → IsAllocId b1 r
        → r ≡ done (some j, b2)
        → bit_of b1 j ≡ false
    second (exhausted all) e = absurd (ground arith)
    second (fresh k b' q free all valid size bits) e =
        let same : k ≡ j = ground arith in rw (← same) free

    first : {r : Outcome (Option ℕ × Bitmap)} → IsAllocId b r → r ≡ done (some i, b1) → i ≢ j
    first (exhausted all) e = absurd (ground arith)
    first (fresh k b' q free all valid size bits) e = λ equal.
        let same : k ≡ i = ground arith in
        let same_map : b' ≡ b1 = ground arith in
        let used : bit_of b' j ≡ true = ground (arith, bits j, same, equal) in
        let valid' : IsValid b1 = rw (← same_map) valid in
        let small' : b1.size * 8 < 2 ^ 64 = rw (← same_map) (omega (arith, size)) in
        let free' = second (alloc_id-IsAllocId valid' small') e2 in cc (used, free', same_map)

-- No thread number is free, or a thread with the least free number is made, whose code and stack
-- selectors have the same privilege level.
pub data IsThread (b : Bitmap) (rip : ℕ) (cs : SelectorValues)
    : Outcome (Thread × Bitmap) → Type 0 where
  exhausted : AllBits b true 0 (b.size * 8) → IsThread b rip cs panic
  started :
      (t : Thread) (b' : Bitmap)
      → bit_of b t.tid ≡ false
      → AllBits b true 0 t.tid
      → ((j : ℕ) → bit_of b' j ≡ (if t.tid == j then true else bit_of b j))
      → t.regs.ss % 4 ≡ t.regs.cs % 4
      → t.regs.cs ≡ selector cs
      → t.regs.rip ≡ rip
      → IsThread b rip cs (done (t, b'))

same_level : (cs : SelectorValues) → stack_selector cs % 4 ≡ selector cs % 4
same_level kernel_cs = refl
same_level kernel_ds = refl
same_level user_cs = refl
same_level user_ds = refl

-- From a valid bitmap of less than 2^64 bits `Thread::new` makes a thread with the least free number,
-- which it takes, at `rip` and `cs`, with a stack selector of the privilege level of `cs`, or it
-- panics, and then every number is in use.
pub thread_new-IsThread :
    {b : Bitmap} (rip parent : ℕ) (cs : SelectorValues)
    → IsValid b
    → b.size * 8 < 2 ^ 64
    → IsThread b rip cs (thread_new rip cs parent (some b))
unfolding thread_new
thread_new-IsThread {b} rip parent cs ok small = go (alloc_id-IsAllocId ok small)
  where
    go :
        {r : Outcome (Option ℕ × Bitmap)}
        → IsAllocId b r
        → IsThread b rip cs
            (r >>= λ (id, tids'). expect id >>= λ tid. done (thread tid rip cs parent, tids'))
    go (IsAllocId.exhausted all) = IsThread.exhausted all
    go (IsAllocId.fresh i b' q free all valid size bits) =
        started (thread i rip cs parent) b' free all bits (same_level cs) refl refl
