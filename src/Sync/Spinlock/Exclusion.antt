-- ===== src/Sync/Spinlock/Exclusion.antt =====
-- At most one processor is between `lock` and `unlock`, so no update of the value is lost.
use griffin.Common.{
  ℕ, zero, suc, ◌≡◌, ◌≢◌, ◌⊎◌, refl, sym, ap, ◌∙◌, Bool, true, false, some, ◌==◌, ==_iff,
  Bool-cases, inl, inr, arith,
}
use griffin.Sync.Spinlock.{
  Spinlock, compare_exchange, unlock, Pc, outside, spinning, holding, loaded, Move, begin, fail,
  acquire, load, store, release, System, update, pick, initial, Steps, here, next,
}

-- Who is between `lock` and `unlock`.
abbrev pub inside : {T : Type 0} {f : T → T} → Pc f → Bool
inside outside = false
inside spinning = false
inside holding = true
inside (loaded v) = true

-- The flag is set while exactly one processor is inside.
pub record Exclusive (flag : Bool) (within : ℕ → Bool) : Type 0 where
  pub free : flag ≡ false → (i : ℕ) → within i ≡ false
  pub one : (i j : ℕ) → within i ≡ true → within j ≡ true → i ≡ j
  pub held : flag ≡ true → (i : ℕ) × (within i ≡ true)

pub update-same : {A : Type 0} (g : ℕ → A) (i : ℕ) (a : A) → update g i a i ≡ a
update-same g i a = let e : (i == i) ≡ true = ground arith in rw e refl

pub update-other :
    {A : Type 0} (g : ℕ → A) (i j : ℕ) (a : A) → (j == i) ≡ false → update g i a j ≡ g j
update-other g i j a e = rw e refl

pub iterate : {T : Type 0} → (T → T) → ℕ → T → T
iterate f zero v = v
iterate f (suc n) v = f (iterate f n v)

Exclusive-same :
    {flag : Bool} {g h : ℕ → Bool} → ((j : ℕ) → h j ≡ g j) → Exclusive flag g → Exclusive flag h
Exclusive-same same ex = record {
  free = λ e i. same i ∙ ex.free e i;
  one = λ i j a b. ex.one i j (sym (same i) ∙ a) (sym (same j) ∙ b);
  held = λ e. let (i, a) = ex.held e in (i, same i ∙ a);
}

Exclusive-enter :
    {flag : Bool} {g : ℕ → Bool} (i : ℕ)
    → flag ≡ false
    → Exclusive flag g
    → Exclusive true (update g i true)
Exclusive-enter {g} i clear ex = record {
  free = λ e j. absurd (ground arith);
  one = λ j k a b. alone j a ∙ sym (alone k b);
  held = λ e. (i, update-same g i true);
}
  where
    alone : (j : ℕ) → update g i true j ≡ true → j ≡ i
    alone j a = elim (Bool-cases (j == i)) [
      | inl e ↦ (==_iff j i).0 e
      | inr e ↦ absurd (ground (arith, ex.free clear j, update-other g i j true e, a))
    ]

Exclusive-leave :
    {flag : Bool} {g : ℕ → Bool} (i : ℕ)
    → g i ≡ true
    → Exclusive flag g
    → Exclusive false (update g i false)
Exclusive-leave {g} i was ex = record {
  free = λ e j. out j;
  one = λ j k a b. absurd (ground (arith, out j, a));
  held = λ e. absurd (ground arith);
}
  where
    out : (j : ℕ) → update g i false j ≡ false
    out j = elim (Bool-cases (j == i)) [
      | inl e ↦ rw e refl
      | inr e ↦ elim (Bool-cases (g j)) [
        | inl a ↦ absurd (ground (arith, ex.one j i a was, e, ==_iff j i))
        | inr a ↦ rw e a
      ]
    ]

compare_exchange-some :
    {T : Type 0} (l l' : Spinlock T)
    → compare_exchange l ≡ some l'
    → (l.flag ≡ false) × (l' ≡ record l { flag = true })
unfolding compare_exchange
compare_exchange-some l l' h = elim (Bool-cases l.flag) [
  | inl e ↦ absurd (ground (arith, e))
  | inr e ↦ (e, ground (arith, e))
]

module _ {T : Type 0} {f : T → T} (v0 : T) where
  -- The value is the result of the writes so far, and what a processor has read is still the value.
  pub record Inv (l : Spinlock T) (n : ℕ) (pc : ℕ → Pc f) : Type 0 where
    pub exclusive : Exclusive l.flag (λ i. inside (pc i))
    pub kept : (i : ℕ) (v : T) → pc i ≡ loaded v → v ≡ l.value
    pub sum : l.value ≡ iterate f n v0

  inside-update :
      (pc : ℕ → Pc f) (i : ℕ) (p : Pc f) (j : ℕ)
      → inside (update pc i p j) ≡ update (λ k. inside (pc k)) i (inside p) j
  inside-update pc i p j = elim (Bool-cases (j == i)) [ inl e ↦ rw e refl | inr e ↦ rw e refl ]

  same_inside :
      (pc : ℕ → Pc f) (i : ℕ) (p : Pc f)
      → inside p ≡ inside (pc i)
      → (j : ℕ) → inside (update pc i p j) ≡ inside (pc j)
  same_inside pc i p h j = elim (Bool-cases (j == i)) [
    | inl e ↦ rw e (h ∙ ap (λ (k : ℕ). inside (pc k)) (sym ((==_iff j i).0 e)))
    | inr e ↦ rw e refl
  ]

  -- A processor that has not just read the value had read it before.
  loaded-update :
      (pc : ℕ → Pc f) (i : ℕ) (p : Pc f) (j : ℕ) (v : T)
      → update pc i p j ≡ loaded v
      → (p ≡ loaded v) ⊎ ((pc j ≡ loaded v) × (j ≢ i))
  loaded-update pc i p j v h = elim (Bool-cases (j == i)) [
    | inl e ↦ inl (ground (arith, e))
    | inr e ↦ inr (ground (arith, e), λ q. absurd (ground (arith, e, q, ==_iff j i)))
  ]

  kept_quiet :
      (pc : ℕ → Pc f) (i : ℕ) (p : Pc f) (x : T)
      → ((v : T) → p ≢ loaded v)
      → ((j : ℕ) (v : T) → pc j ≡ loaded v → v ≡ x)
      → (j : ℕ) (v : T) → update pc i p j ≡ loaded v
      → v ≡ x
  kept_quiet pc i p x quiet kept j v h = elim (loaded-update pc i p j v h) [
    | inl e ↦ absurd (quiet v e)
    | inr (e, other) ↦ kept j v e
  ]

  enter :
      {l : Spinlock T} {n : ℕ} (pc : ℕ → Pc f) (i : ℕ)
      → l.flag ≡ false
      → Inv l n pc
      → Inv (record l { flag = true }) n (update pc i holding)
  enter {l} pc i clear inv = record {
    exclusive = Exclusive-same (inside-update pc i holding) (Exclusive-enter i clear inv.exclusive);
    kept = kept_quiet pc i holding l.value (λ v. cc) inv.kept;
    sum = inv.sum;
  }

  Move-Inv :
      {l l' : Spinlock T} {n n' : ℕ} {p p' : Pc f} (pc : ℕ → Pc f) (i : ℕ)
      → pc i ≡ p
      → Move f l n p l' n' p'
      → Inv l n pc
      → Inv l' n' (update pc i p')
  unfolding unlock iterate
  Move-Inv {l} pc i at begin inv = record {
    exclusive = Exclusive-same (same_inside pc i spinning (sym (ap inside at))) inv.exclusive;
    kept = kept_quiet pc i spinning l.value (λ v. cc) inv.kept;
    sum = inv.sum;
  }
  Move-Inv {l} pc i at (fail q) inv = record {
    exclusive = Exclusive-same (same_inside pc i spinning (sym (ap inside at))) inv.exclusive;
    kept = kept_quiet pc i spinning l.value (λ v. cc) inv.kept;
    sum = inv.sum;
  }
  Move-Inv {l} {l'} pc i at (acquire q) inv =
      let (clear, e) = compare_exchange-some l l' q in rw e (enter pc i clear inv)
  Move-Inv {l} pc i at load inv = record {
    exclusive =
        Exclusive-same (same_inside pc i (loaded l.value) (sym (ap inside at))) inv.exclusive;
    kept = λ j v h. elim (loaded-update pc i (loaded l.value) j v h) [
      | inl e ↦ cc
      | inr (e, other) ↦ inv.kept j v e
    ];
    sum = inv.sum;
  }
  Move-Inv {n} pc i at (store {v}) inv = record {
    exclusive = Exclusive-same (same_inside pc i holding (sym (ap inside at))) inv.exclusive;
    kept = λ j u h. elim (loaded-update pc i holding j u h) [
      | inl e ↦ absurd cc
      | inr (e, other) ↦ absurd (other (inv.exclusive.one j i (ap inside e) (ap inside at)))
    ];
    sum = ap f (inv.kept i v at ∙ inv.sum);
  }
  Move-Inv {l} pc i at release inv = record {
    exclusive =
        Exclusive-same (inside-update pc i outside)
          (Exclusive-leave i (ap inside at) inv.exclusive);
    kept = kept_quiet pc i outside l.value (λ v. cc) inv.kept;
    sum = inv.sum;
  }

  pub Steps-Inv : {s : System f} → Steps f (initial f v0) s → Inv s.lock s.writes s.pc
  unfolding iterate
  Steps-Inv here = record {
    exclusive = record {
      free = λ e i. refl;
      one = λ i j a b. absurd (ground arith);
      held = λ e. absurd (ground arith);
    };
    kept = λ i v e. absurd cc;
    sum = refl;
  }
  Steps-Inv (next {t} steps (pick i move)) = Move-Inv t.pc i refl move (Steps-Inv steps)

  -- However the processors' steps interleave from a new lock on, two of them are never between `lock`
  -- and `unlock` together.
  pub mutual_exclusion :
      {s : System f}
      → Steps f (initial f v0) s
      → (i j : ℕ) → inside (s.pc i) ≡ true
      → inside (s.pc j) ≡ true
      → i ≡ j
  mutual_exclusion steps i j a b = (Steps-Inv steps).exclusive.one i j a b

  -- However the processors' steps interleave from a new lock on, the value is the first one after `f`
  -- once for each write: no write is lost.
  pub no_lost_write :
      {s : System f} → Steps f (initial f v0) s → s.lock.value ≡ iterate f s.writes v0
  no_lost_write steps = (Steps-Inv steps).sum
