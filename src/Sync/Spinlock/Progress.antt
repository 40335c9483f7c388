-- ===== src/Sync/Spinlock/Progress.antt =====
-- A processor in the loop of `lock` can get the lock.
use griffin.Common.{
  ℕ, suc, ◌≡◌, refl, sym, ap, ◌∙◌, true, false, some, ◌==◌, ==_iff, Bool-cases, inl, inr, arith,
}
use griffin.Sync.Spinlock.{
  Spinlock, compare_exchange, unlock, Pc, outside, spinning, holding, loaded, Move, acquire, store,
  release, System, update, Step, pick, initial, Steps, here, next,
}
use griffin.Sync.Spinlock.Exclusion.{update-same, update-other, inside, Steps-Inv}

compare_exchange-free :
    {T : Type 0} (l : Spinlock T)
    → l.flag ≡ false
    → compare_exchange l ≡ some (record l { flag = true })
unfolding compare_exchange
compare_exchange-free l e = rw e refl

module _ {T : Type 0} {f : T → T} where
  -- The processor has the lock after some steps.
  pub record Gets (s : System f) (i : ℕ) : Type 0 where
    pub after : System f
    pub steps : Steps f s after
    pub inside : after.pc i ≡ holding

  step_from :
      (s : System f) (i : ℕ) {p p' : Pc f} {l : Spinlock T} {n : ℕ}
      → s.pc i ≡ p
      → Move f s.lock s.writes p l n p'
      → Step f s (record { lock = l; writes = n; pc = update s.pc i p' })
  step_from s i at move = pick i (rw at move)

  take_free : (s : System f) (i : ℕ) → s.pc i ≡ spinning → s.lock.flag ≡ false → Gets s i
  take_free s i at clear = record {
    after = record {
      lock = record s.lock { flag = true };
      writes = s.writes;
      pc = update s.pc i holding;
    };
    steps = next here (step_from s i at (acquire (compare_exchange-free s.lock clear)));
    inside = update-same s.pc i holding;
  }

  append : {s t u : System f} → Steps f s t → Steps f t u → Steps f s u
  append first here = first
  append first (next steps step) = next (append first steps) step

  Gets-after : {s t : System f} {i : ℕ} → Steps f s t → Gets t i → Gets s i
  Gets-after first g = record { after = g.after; steps = append first g.steps; inside = g.inside }

  -- The holder gives the lock back, and the other takes it.
  after_release :
      (s : System f) (i j : ℕ) → s.pc i ≡ spinning → s.pc j ≡ holding → (i == j) ≡ false → Gets s i
  unfolding unlock
  after_release s i j at owner other = Gets-after (next here (step_from s j owner release)) (
      take_free (record { lock = unlock s.lock; writes = s.writes; pc = update s.pc j outside }) i
        (update-other s.pc j i outside other ∙ at) refl)

  after_store :
      (s : System f) (i j : ℕ) (v : T)
      → s.pc i ≡ spinning
      → s.pc j ≡ loaded v
      → (i == j) ≡ false
      → Gets s i
  after_store s i j v at owner other = Gets-after (next here (step_from s j owner store)) (
      after_release
        (record {
          lock = record s.lock { value = f v };
          writes = suc s.writes;
          pc = update s.pc j holding;
        })
        i j (update-other s.pc j i holding other ∙ at) (update-same s.pc j holding) other)

  from_owner :
      (s : System f) (i j : ℕ) (p : Pc f)
      → s.pc i ≡ spinning
      → s.pc j ≡ p
      → inside p ≡ true
      → (i == j) ≡ false
      → Gets s i
  from_owner s i j outside at owner within other = absurd (ground arith)
  from_owner s i j spinning at owner within other = absurd (ground arith)
  from_owner s i j holding at owner within other = after_release s i j at owner other
  from_owner s i j (loaded v) at owner within other = after_store s i j v at owner other

  -- From every state that the steps of the processors lead to, there are steps after which a
  -- processor that is in the loop of `lock` has the lock.
  pub lock-Gets :
      {v0 : T} {s : System f} → Steps f (initial f v0) s → (i : ℕ) → s.pc i ≡ spinning → Gets s i
  lock-Gets {v0} {s} steps i at = elim (Bool-cases s.lock.flag) [
    | inr clear ↦ take_free s i at clear
    | inl taken ↦
        let (j, within) = (Steps-Inv v0 steps).exclusive.held taken in
        from_owner s i j (s.pc j) at refl within (elim (Bool-cases (i == j)) [
          | inr other ↦ other
          | inl same ↦
              absurd (ground (arith, within, ap inside (ap s.pc (sym ((==_iff i j).0 same)) ∙ at)))
        ])
  ]
