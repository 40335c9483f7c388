-- ===== src/Fs/Ext2/Directory/Listing.antt =====
-- `search` over the bytes of a directory is a look-up in the list of its entries.
use griffin.Common.{
  ℕ, zero, suc, ◌+◌, ◌^◌, ◌≤◌, ◌<◌, ◌≡◌, inl, inr, refl, sym, ap, ap₂, ◌∙◌, true, false, not, ◌&&◌,
  Option, none, some, List, [], ◌∷◌, ◌++◌, length, length-append, get_or, arith, done, leb, ltb,
  ◌==◌, ==_iff, Bool-cases, if◌then◌else◌,
}
use mathlib.Core.List.{append_assoc}
use griffin.Fs.Vfs.{Str, same_str}
use griffin.Fs.Vfs.Mounts.{same_str-eq}
use griffin.Fs.Ext2.Layout.{le16, le32, u8_at, u16_at, u32_at, bytes_at}
use griffin.Fs.Ext2.Layout.Codec.{join16, join32, get_or-append, bytes_at-shift, bytes_at-append}
use griffin.Fs.Ext2.Directory.{entry_header, search_loop}

-- An entry, with the bytes behind its name.
pub record Entry : Type 0 where
  pub inode : ℕ
  pub kind : ℕ
  pub name : Str
  pub pad : List ℕ

abbrev pub entry_size : Entry → ℕ
entry_size e = entry_header + (length e.name + length e.pad)

abbrev pub entry_bytes : Entry → List ℕ
entry_bytes e =
    le32 e.inode ++ (le16 (entry_size e) ++ (length e.name ∷ e.kind ∷ (e.name ++ e.pad)))

abbrev pub listing : List Entry → List ℕ
listing [] = []
listing (e ∷ es) = entry_bytes e ++ listing es

-- The inode of the first entry in use that has the name.
unfoldable pub find_entry : Str → List Entry → Option ℕ
find_entry name [] = none
find_entry name (e ∷ es) =
    if not (e.inode == 0) && same_str e.name name then some e.inode else find_entry name es

pub record IsEntry (e : Entry) : Type 0 where
  pub inode : e.inode < 2 ^ 32
  pub size : entry_size e < 2 ^ 16

pub data AllEntries : List Entry → Type 0 where
  nil : AllEntries []
  cons : {e : Entry} {es : List Entry} → IsEntry e → AllEntries es → AllEntries (e ∷ es)

u16_at-append : (pre xs : List ℕ) (k : ℕ) → u16_at (pre ++ xs) (length pre + k) ≡ u16_at xs k
u16_at-append pre xs k =
    let next : length pre + k + 1 ≡ length pre + (k + 1) = omega arith in
    rw next (omega (arith, get_or-append pre xs k, get_or-append pre xs (k + 1)))

u32_at-append : (pre xs : List ℕ) → u32_at (pre ++ xs) (length pre) ≡ u32_at xs 0
u32_at-append pre xs =
    let start : get_or (pre ++ xs) (length pre) 0 ≡ get_or xs 0 0 =
      ap (λ (j : ℕ). get_or (pre ++ xs) j 0) (omega arith) ∙ get_or-append pre xs 0 in
    omega (arith, start, get_or-append pre xs 1, get_or-append pre xs 2, get_or-append pre xs 3)

same_str-length : (a b : Str) → length a == length b ≡ false → same_str a b ≡ false
same_str-length a b other = elim (Bool-cases (same_str a b)) [
  | inr e ↦ e
  | inl e ↦ ground (arith, other, ap length (same_str-eq a b e))
]

-- What the loop reads at the start of an entry.
record Reads (buffer : List ℕ) (i : ℕ) (e : Entry) : Type 0 where
  inode : u32_at buffer i ≡ e.inode
  size : u16_at buffer (i + 4) ≡ entry_size e
  name_length : u8_at buffer (i + 6) ≡ length e.name
  name : bytes_at buffer (i + entry_header) (length e.name) ≡ e.name
  inside : i + entry_size e ≤ length buffer

entry_Reads :
    (pre : List ℕ) (e : Entry) (rest : List ℕ)
    → IsEntry e
    → Reads (pre ++ (entry_bytes e ++ rest)) (length pre) e
entry_Reads pre e rest ok = record {
  inode = u32_at-append pre (entry_bytes e ++ rest) ∙ join32 e.inode ok.inode;
  size = u16_at-append pre (entry_bytes e ++ rest) 4 ∙ join16 (entry_size e) ok.size;
  name_length = get_or-append pre (entry_bytes e ++ rest) 6;
  name = bytes_at-shift pre (entry_bytes e ++ rest) entry_header (length e.name) ∙ named;
  inside = omega (
    arith,
    length-append pre (entry_bytes e ++ rest),
    length-append (e.name ++ e.pad) rest,
    length-append e.name e.pad,
  );
}
  where
    header : List ℕ
    header = le32 e.inode ++ (le16 (entry_size e) ++ (length e.name ∷ e.kind ∷ []))

    named : bytes_at (entry_bytes e ++ rest) entry_header (length e.name) ≡ e.name
    named =
        ap (λ (t : List ℕ). bytes_at (header ++ t) entry_header (length e.name))
          (append_assoc e.name e.pad rest)
        ∙ bytes_at-append header e.name (e.pad ++ rest)

module _ (name : Str) (sizel : ℕ) (small : sizel < 2 ^ 32) where
  -- One round of the loop at the start of an entry.
  search_step :
      (buffer : List ℕ) (fuel i : ℕ) (e : Entry)
      → IsEntry e
      → Reads buffer i e
      → i + entry_size e ≤ sizel
      → search_loop buffer sizel name (suc fuel) i ≡ (
          if not (e.inode == 0) && same_str e.name name
          then done (some e.inode)
          else search_loop buffer sizel name fuel (i + entry_size e))
  unfolding search_loop
  search_step buffer fuel i e ok t fits =
      let more : ltb i sizel ≡ true = ground arith in
      let header : leb (i + entry_header) (length buffer) ≡ true = ground (arith, t.inside) in
      let next : ltb (i + entry_size e) (2 ^ 32) ≡ true = ground arith in
      elim (Bool-cases (e.inode == 0)) [
        | inl unused ↦ rw (search_loop, more, header, t.size, next, t.inode, unused) refl
        | inr used ↦ elim (Bool-cases (length e.name == length name)) [
          | inr other ↦
              rw
                (
                  search_loop,
                  more,
                  header,
                  t.size,
                  next,
                  t.inode,
                  used,
                  t.name_length,
                  other,
                  same_str-length e.name name other,
                )
                refl
          | inl same ↦
              let inner : leb (i + entry_header + length name) (length buffer) ≡ true =
                ground (arith, t.inside, (==_iff (length e.name) (length name)).0 same) in
              let bytes : bytes_at buffer (i + entry_header) (length name) ≡ e.name =
                ap (λ (n : ℕ). bytes_at buffer (i + entry_header) n)
                  (sym ((==_iff (length e.name) (length name)).0 same))
                ∙ t.name in
              elim (Bool-cases (same_str e.name name)) [
                | inl found ↦
                    rw
                      (
                        search_loop, more, header, t.size, next, t.inode, used, t.name_length, same,
                        inner, bytes, found,
                      )
                      (ap (λ (k : ℕ). done (some k)) t.inode)
                | inr other ↦
                    rw
                      (
                        search_loop, more, header, t.size, next, t.inode, used, t.name_length, same,
                        inner, bytes, other,
                      )
                      refl
              ]
        ]
      ]

  -- The loop of `search` over the bytes of a list of entries, from the start of the first on,
  -- finds the inode of the first entry in use that has the name, and none where there is no such
  -- entry, with at least one round of fuel for each entry. The size, below 2^32, is that of the
  -- bytes before the entries and of the entries, and the entries' inodes and sizes fit their
  -- widths.
  pub search_loop-eq-find_entry :
      (es : List Entry) (pre tail : List ℕ) (fuel : ℕ)
      → AllEntries es
      → length es ≤ fuel
      → length pre + length (listing es) ≡ sizel
      → search_loop (pre ++ (listing es ++ tail)) sizel name fuel (length pre)
        ≡ done (find_entry name es)
  unfolding search_loop find_entry
  search_loop-eq-find_entry [] pre tail zero all enough size =
      let stop : ltb (length pre) sizel ≡ false = ground arith in rw (search_loop, stop) refl
  search_loop-eq-find_entry [] pre tail (suc fuel) all enough size =
      let stop : ltb (length pre) sizel ≡ false = ground arith in rw (search_loop, stop) refl
  search_loop-eq-find_entry (e ∷ es) pre tail zero all enough size = absurd (ground arith)
  search_loop-eq-find_entry (e ∷ es) pre tail (suc fuel) (cons ok all) enough size =
      let split : length (listing (e ∷ es)) ≡ entry_size e + length (listing es) =
        ground (arith, length-append (entry_bytes e) (listing es), length-append e.name e.pad) in
      let here : length (pre ++ entry_bytes e) ≡ length pre + entry_size e =
        ground (arith, length-append pre (entry_bytes e), length-append e.name e.pad) in
      let assoc : pre ++ (listing (e ∷ es) ++ tail)
          ≡ pre ++ (entry_bytes e ++ (listing es ++ tail)) =
        ap (λ (t : List ℕ). pre ++ t) (append_assoc (entry_bytes e) (listing es) tail) in
      let later : search_loop (pre ++ (entry_bytes e ++ (listing es ++ tail))) sizel name fuel
            (length pre + entry_size e)
          ≡ done (find_entry name es) =
        ap₂ (λ (b : List ℕ) (j : ℕ). search_loop b sizel name fuel j)
          (sym (append_assoc pre (entry_bytes e) (listing es ++ tail))) (sym here)
        ∙ search_loop-eq-find_entry es (pre ++ entry_bytes e) tail fuel all (ground arith)
            (ground arith) in
      rw assoc (
        search_step (pre ++ (entry_bytes e ++ (listing es ++ tail))) fuel (length pre) e ok
          (entry_Reads pre e (listing es ++ tail) ok) (ground arith)
        ∙ (elim (Bool-cases (not (e.inode == 0) && same_str e.name name)) [
          | inl found ↦ rw (find_entry, found) refl
          | inr other ↦ rw (find_entry, other) later
        ]))
