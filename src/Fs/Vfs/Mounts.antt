-- ===== src/Fs/Vfs/Mounts.antt =====
-- `mount` keeps the names of the mount points absolute and different from each other.
use griffin.Common.{
  ℕ, zero, suc, ◌≡◌, ◌≢◌, ◌⊎◌, ◌∙◌, sym, ap, refl, Bool, true, false, none, some, List, [], ◌∷◌,
  ◌++◌, length, get_elem?, arith, inl, inr, Bool-cases, ==_iff, ◌==◌, ap₂,
}
use griffin.Fs.Vfs.{Str, is_absolute, same_str, MountPoint, is_mounted, mount}

pub same_str-eq : (s t : Str) → same_str s t ≡ true → s ≡ t
unfolding same_str
same_str-eq [] [] h = refl
same_str-eq [] (d ∷ t) h = absurd (ground arith)
same_str-eq (c ∷ s) [] h = absurd (ground arith)
same_str-eq (c ∷ s) (d ∷ t) h = elim (Bool-cases (c == d)) [
  | inl e ↦ ap₂ ◌∷◌ ((==_iff c d).0 e) (same_str-eq s t (ground (arith, e)))
  | inr e ↦ absurd (ground (arith, e))
]

same_str_refl : (s : Str) → same_str s s ≡ true
unfolding same_str
same_str_refl [] = refl
same_str_refl (c ∷ s) = let e : (c == c) ≡ true = ground arith in rw (e, same_str_refl s) refl

module _ {Fs : Type 0} where
  is_mounted-none :
      (target : Str) (mounts : List (MountPoint Fs))
      → is_mounted target mounts ≡ false
      → (j : ℕ) (d : MountPoint Fs) → get_elem? mounts j ≡ some d
      → d.name ≢ target
  unfolding is_mounted
  is_mounted-none target [] h j d e = absurd (ground arith)
  is_mounted-none target (mp ∷ rest) h zero d e = λ same.
      let at : mp ≡ d = ground arith in
      let here : same_str mp.name target ≡ true = rw (at, same) (same_str_refl target) in
      cc (here, h)
  is_mounted-none target (mp ∷ rest) h (suc j) d e =
      is_mounted-none target rest (ground (arith, Bool-cases (same_str mp.name target))) j d e

  is_mounted-some :
      (target : Str) (mounts : List (MountPoint Fs))
      → is_mounted target mounts ≡ true
      → (j : ℕ) × (d : MountPoint Fs) × (get_elem? mounts j ≡ some d) × (d.name ≡ target)
  unfolding is_mounted
  is_mounted-some target [] h = absurd (ground arith)
  is_mounted-some target (mp ∷ rest) h = elim (Bool-cases (same_str mp.name target)) [
    | inl e ↦ (0, mp, refl, same_str-eq mp.name target e)
    | inr e ↦
        let (j, d, at, name) = is_mounted-some target rest (ground (arith, e)) in
        (suc j, d, at, name)
  ]

  get_elem?-append_last :
      (xs : List (MountPoint Fs)) (x d : MountPoint Fs) (j : ℕ)
      → get_elem? (xs ++ (x ∷ [])) j ≡ some d
      → (get_elem? xs j ≡ some d) ⊎ ((j ≡ length xs) × (d ≡ x))
  get_elem?-append_last [] x d zero e = inr (refl, ground arith)
  get_elem?-append_last [] x d (suc j) e = absurd (ground arith)
  get_elem?-append_last (y ∷ xs) x d zero e = inl e
  get_elem?-append_last (y ∷ xs) x d (suc j) e = elim (get_elem?-append_last xs x d j e) [
    | inl old ↦ inl old
    | inr (at, same) ↦ inr (ap suc at, same)
  ]

  -- Every mount point has an absolute name, a file system, and a name of its own.
  pub record IsTable (mounts : List (MountPoint Fs)) : Type 0 where
    pub absolute :
        (j : ℕ) (d : MountPoint Fs) → get_elem? mounts j ≡ some d → is_absolute d.name ≡ true
    pub mounted : (j : ℕ) (d : MountPoint Fs) → get_elem? mounts j ≡ some d → d.fs ≢ none
    pub distinct :
        (i j : ℕ) (d e : MountPoint Fs)
        → get_elem? mounts i ≡ some d
        → get_elem? mounts j ≡ some e
        → d.name ≡ e.name
        → i ≡ j

  -- A relative or a used name is rejected and nothing changes; another is added at the end.
  pub data IsMount (fs : Fs) (target : Str) (mounts : List (MountPoint Fs))
      : Bool × List (MountPoint Fs) → Type 0 where
    relative : is_absolute target ≡ false → IsMount fs target mounts (false, mounts)
    in_use :
        (j : ℕ) (d : MountPoint Fs)
        → get_elem? mounts j ≡ some d
        → d.name ≡ target
        → IsMount fs target mounts (false, mounts)
    added :
        IsTable (mounts ++ (record { name = target; fs = some fs } ∷ []))
        → IsMount fs target mounts (true, mounts ++ (record { name = target; fs = some fs } ∷ []))

  IsTable-append :
      (fs : Fs) (target : Str) (mounts : List (MountPoint Fs))
      → IsTable mounts
      → is_absolute target ≡ true
      → ((j : ℕ) (d : MountPoint Fs) → get_elem? mounts j ≡ some d → d.name ≢ target)
      → IsTable (mounts ++ (record { name = target; fs = some fs } ∷ []))
  IsTable-append fs target mounts ok abs unused = record {
    absolute = λ j d e. elim (get_elem?-append_last mounts new d j e) [
      | inl old ↦ ok.absolute j d old
      | inr (at, same) ↦ rw same abs
    ];
    mounted = λ j d e. elim (get_elem?-append_last mounts new d j e) [
      | inl old ↦ ok.mounted j d old
      | inr (at, same) ↦ λ z. absurd (ground (arith, z, same))
    ];
    distinct = λ i j d e p q same_name. elim (get_elem?-append_last mounts new d i p) [
      | inl old ↦ elim (get_elem?-append_last mounts new e j q) [
        | inl old' ↦ ok.distinct i j d e old old' same_name
        | inr (at, same) ↦
            absurd (unused i d old (same_name ∙ ap (λ (m : MountPoint Fs). m.name) same))
      ]
      | inr (at, same) ↦ elim (get_elem?-append_last mounts new e j q) [
        | inl old ↦
            absurd (unused j e old (sym same_name ∙ ap (λ (m : MountPoint Fs). m.name) same))
        | inr (at', same') ↦ at ∙ sym at'
      ]
    ];
  }
    where
      new : MountPoint Fs
      new = record { name = target; fs = some fs }

  -- On a table of mount points whose names are absolute and different, `mount` rejects a relative or a
  -- used name and keeps the table, and adds any other at the end of a table that is again such a one.
  pub mount-IsMount :
      (fs : Fs) (target : Str) (mounts : List (MountPoint Fs))
      → IsTable mounts
      → IsMount fs target mounts (mount fs target mounts)
  unfolding mount
  mount-IsMount fs target mounts ok = elim (Bool-cases (is_absolute target)) [
    | inr rel ↦ rw rel (relative rel)
    | inl abs ↦ elim (Bool-cases (is_mounted target mounts)) [
      | inl used ↦
          let (j, d, at, name) = is_mounted-some target mounts used in
          rw (abs, used) (in_use j d at name)
      | inr unused ↦
          rw (abs, unused)
            (added (IsTable-append fs target mounts ok abs (is_mounted-none target mounts unused)))
    ]
  ]
