-- ===== src/Fs/Vfs/Opens.antt =====
-- Which mount point a path goes to.
use griffin.Common.{
  ℕ, zero, suc, ◌≤◌, ◌≡◌, refl, true, false, Option, none, some, List, [], ◌∷◌, length, ◌⊎◌, ◌∙◌,
  sym, ap, get_elem?, arith, inl, inr, Bool-cases, ltb,
}
use griffin.Fs.Vfs.{Str, contains, MountPoint, pick, pick_all, get_mount_point}

module _ {Fs : Type 0} (path : Str) where
  -- Nothing that has been seen occurs in the path, or `mp` does, is from the list, and no name that
  -- occurs in it is longer.
  pub data IsLongest (mounts : List (MountPoint Fs)) : Option (MountPoint Fs) → Type 0 where
    nowhere :
        ((j : ℕ) (d : MountPoint Fs) → get_elem? mounts j ≡ some d → contains path d.name ≡ false)
        → IsLongest mounts none
    longest :
        (k : ℕ) (mp : MountPoint Fs)
        → get_elem? mounts k ≡ some mp
        → contains path mp.name ≡ true
        → ((j : ℕ) (d : MountPoint Fs)
            → get_elem? mounts j ≡ some d
            → contains path d.name ≡ true
            → length d.name ≤ length mp.name)
        → IsLongest mounts (some mp)

  -- What the loop makes of a candidate `c` that occurs in the path.
  record IsOver (c : MountPoint Fs) (mounts : List (MountPoint Fs)) : Type 0 where
    mp : MountPoint Fs
    result : pick_all path (some c) mounts ≡ some mp
    occurs : contains path mp.name ≡ true
    from : (mp ≡ c) ⊎ ((k : ℕ) × (get_elem? mounts k ≡ some mp))
    over : length c.name ≤ length mp.name
    over_all :
        (j : ℕ) (d : MountPoint Fs)
        → get_elem? mounts j ≡ some d
        → contains path d.name ≡ true
        → length d.name ≤ length mp.name

  -- The candidate `c'` after a round is `c` or the head of the list.
  IsOver-cons :
      (c c' d : MountPoint Fs) {mounts : List (MountPoint Fs)}
      → pick path (some c) d ≡ some c'
      → (c' ≡ c) ⊎ (c' ≡ d)
      → length c.name ≤ length c'.name
      → (contains path d.name ≡ true → length d.name ≤ length c'.name)
      → IsOver c' mounts
      → IsOver c (d ∷ mounts)
  unfolding pick_all
  IsOver-cons c c' d {mounts} picked origin le le_head o = record {
    mp = o.mp;
    result = rw picked o.result;
    occurs = o.occurs;
    from = source o.from origin;
    over = omega (arith, le, o.over);
    over_all = all;
  }
    where
      source :
          (o.mp ≡ c') ⊎ ((k : ℕ) × (get_elem? mounts k ≡ some o.mp))
          → (c' ≡ c) ⊎ (c' ≡ d)
          → (o.mp ≡ c) ⊎ ((k : ℕ) × (get_elem? (d ∷ mounts) k ≡ some o.mp))
      source (inl e) (inl f) = inl (e ∙ f)
      source (inl e) (inr f) = inr (0, ap some (sym (e ∙ f)))
      source (inr (k, e)) f = inr (suc k, e)

      all :
          (j : ℕ) (t : MountPoint Fs)
          → get_elem? (d ∷ mounts) j ≡ some t
          → contains path t.name ≡ true
          → length t.name ≤ length o.mp.name
      all zero t e h =
          let same : d ≡ t = ground arith in
          omega (arith, ap (λ (u : MountPoint Fs). length u.name) same, o.over, le_head (rw same h))
      all (suc j) t e h = o.over_all j t e h

  over_lem :
      (c : MountPoint Fs) (mounts : List (MountPoint Fs))
      → contains path c.name ≡ true
      → IsOver c mounts
  unfolding pick_all
  over_lem c [] h = record {
    mp = c;
    result = refl;
    occurs = h;
    from = inl refl;
    over = omega arith;
    over_all = λ j d e k. absurd (ground arith);
  }
  over_lem c (d ∷ mounts) h = elim (Bool-cases (contains path d.name)) [
    | inl found ↦ elim (Bool-cases (ltb (length c.name) (length d.name))) [
      | inl longer ↦
          IsOver-cons c d d (rw (found, longer) refl) (inr refl) (ground (arith, longer))
            (λ e. omega arith) (over_lem d mounts found)
      | inr not_longer ↦
          IsOver-cons c c d (rw (found, not_longer) refl) (inl refl) (omega arith)
            (λ e. ground (arith, not_longer)) (over_lem c mounts h)
    ]
    | inr absent ↦
        IsOver-cons c c d (rw absent refl) (inl refl) (omega arith)
          (λ e. absurd (ground (arith, absent, e))) (over_lem c mounts h)
  ]

  pick_all-IsLongest :
      (mounts : List (MountPoint Fs)) → IsLongest mounts (pick_all path none mounts)
  unfolding pick_all
  pick_all-IsLongest [] = nowhere λ j d e. absurd (ground arith)
  pick_all-IsLongest (d ∷ mounts) = elim (Bool-cases (contains path d.name)) [
    | inl found ↦ rw found (start (over_lem d mounts found))
    | inr absent ↦ rw absent (skip absent (pick_all-IsLongest mounts))
  ]
    where
      all :
          (o : IsOver d mounts) (j : ℕ) (t : MountPoint Fs)
          → get_elem? (d ∷ mounts) j ≡ some t
          → contains path t.name ≡ true
          → length t.name ≤ length o.mp.name
      all o zero t e h =
          let same : d ≡ t = ground arith in
          omega (arith, ap (λ (u : MountPoint Fs). length u.name) same, o.over)
      all o (suc j) t e h = o.over_all j t e h

      start : IsOver d mounts → IsLongest (d ∷ mounts) (pick_all path (some d) mounts)
      start o = rw o.result (elim o.from [
        | inl e ↦ longest 0 o.mp (ap some (sym e)) o.occurs (all o)
        | inr (k, e) ↦ longest (suc k) o.mp e o.occurs (all o)
      ])

      none_at :
          contains path d.name ≡ false
          → ((j : ℕ) (t : MountPoint Fs)
              → get_elem? mounts j ≡ some t
              → contains path t.name ≡ false)
          → (j : ℕ) (t : MountPoint Fs) → get_elem? (d ∷ mounts) j ≡ some t
          → contains path t.name ≡ false
      none_at absent rest zero t e = let same : d ≡ t = ground arith in rw (← same) absent
      none_at absent rest (suc j) t e = rest j t e

      still :
          (mp : MountPoint Fs)
          → contains path d.name ≡ false
          → ((j : ℕ) (t : MountPoint Fs)
              → get_elem? mounts j ≡ some t
              → contains path t.name ≡ true
              → length t.name ≤ length mp.name)
          → (j : ℕ) (t : MountPoint Fs) → get_elem? (d ∷ mounts) j ≡ some t
          → contains path t.name ≡ true
          → length t.name ≤ length mp.name
      still mp absent rest zero t e h =
          let same : d ≡ t = ground arith in
          let gone : contains path t.name ≡ false = rw (← same) absent in cc (gone, h)
      still mp absent rest (suc j) t e h = rest j t e h

      skip :
          contains path d.name ≡ false
          → {r : Option (MountPoint Fs)} → IsLongest mounts r
          → IsLongest (d ∷ mounts) r
      skip absent (nowhere none_there) = nowhere (none_at absent none_there)
      skip absent (longest k mp at occurs over) =
          longest (suc k) mp at occurs (still mp absent over)

  -- `get_mount_point` returns a mount point of the table whose name occurs in the path and is the
  -- longest of those that do, or nothing where no name occurs.
  pub get_mount_point-IsLongest :
      (mounts : List (MountPoint Fs)) → IsLongest mounts (get_mount_point path mounts)
  unfolding get_mount_point
  get_mount_point-IsLongest mounts = pick_all-IsLongest mounts
