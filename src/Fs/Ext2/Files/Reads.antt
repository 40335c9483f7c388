-- ===== src/Fs/Ext2/Files/Reads.antt =====
-- What `Inode::read` does: how much it reports, and where in the buffer the bytes go.
use griffin.Common.{
  ℕ, zero, suc, ◌+◌, ◌-◌, ◌*◌, ◌/◌, ◌%◌, ◌^◌, ◌≤◌, ◌<◌, min, ◌≡◌, ◌⊎◌, inl, inr, refl, ap, ◌∙◌,
  true, false, Option, some, List, [], ◌∷◌, length, get_or, arith, Outcome, done, ltb, leb, ◌==◌,
  Bool-cases,
}
use native.Mathlib.Nat.{div-le_self, div-eq_of_lt, mul-add-mod_self_right, mod-eq_of_lt}
use griffin.Fs.Device.{Device, slice}
use griffin.Fs.Device.Laws.{length-slice}
use griffin.Fs.Ext2.Layout.{Inode}
use griffin.Fs.Ext2.Volume.{Ext2Filesystem}
use griffin.Fs.Ext2.Volume.Laws.{IsVolume, IsReadable, place, position_lem}
use griffin.Fs.Ext2.Pointers.Lookup.{
  IsInode, get_block_address_total, get_block_address-eq-file_block,
}
use griffin.Fs.Ext2.Files.{overwrite, copy_to, count, round_position, read_loop, inode_read}

length-overwrite : (bs buffer : List ℕ) → length (overwrite bs buffer) ≡ length buffer
length-overwrite [] buffer = refl
length-overwrite (b ∷ bs) [] = refl
length-overwrite (b ∷ bs) (x ∷ buffer) = ap suc (length-overwrite bs buffer)

get_or-overwrite :
    (bs buffer : List ℕ) (i : ℕ)
    → length bs ≤ i
    → get_or (overwrite bs buffer) i 0 ≡ get_or buffer i 0
get_or-overwrite [] buffer i h = refl
get_or-overwrite (b ∷ bs) [] i h = refl
get_or-overwrite (b ∷ bs) (x ∷ buffer) zero h = absurd (omega arith)
get_or-overwrite (b ∷ bs) (x ∷ buffer) (suc i) h = get_or-overwrite bs buffer i (omega arith)

-- A copy for which the buffer is long enough.
copy_to-fits :
    (bs buffer : List ℕ)
    → length bs ≤ length buffer
    → copy_to bs buffer ≡ done (overwrite bs buffer)
copy_to-fits bs buffer h =
    let e : leb (length bs) (length buffer) ≡ true = ground arith in rw e refl

-- The rest after whole blocks.
rest_lem : (bytes k b : ℕ) → k * b < bytes → bytes < k * b + b → bytes % b ≡ bytes - k * b
rest_lem bytes k b lo hi =
    ap (λ (t : ℕ). t % b) (omega arith)
    ∙ mul-add-mod_self_right k b (bytes - k * b)
    ∙ mod-eq_of_lt (omega arith)

-- The call returns all the bytes that it was asked for, and leaves the buffer behind its first
-- `block_size` bytes as it was.
pub record IsRead (block_size bytes : ℕ) (buffer : List ℕ) (result : Outcome (Option ℕ × List ℕ))
    : Type 0 where
  pub out : List ℕ
  pub returns : result ≡ done (some bytes, out)
  pub size : length out ≡ length buffer
  pub untouched : (i : ℕ) → block_size ≤ i → get_or out i 0 ≡ get_or buffer i 0

module _ {World : Type 0} {dev : Device World} {fs : Ext2Filesystem} {w : World} {bytes : ℕ → ℕ}
    (ok : IsVolume fs) (r : IsReadable dev w bytes) (n : Inode) (m : IsInode n) (offset total : ℕ)
    (low : offset < 2 ^ 48) (few : total < 2 ^ 48) where
  round_position_total :
      (k : ℕ) → k < 2 ^ 48 → (pos : ℕ) × (round_position dev fs n offset total k w ≡ done pos)
  unfolding round_position
  round_position_total k h =
      let z : (fs.block_size == 0) ≡ false = ground (arith, ok.large) in
      let (a, e, small) =
        get_block_address_total ok r n (offset / fs.block_size + k) m
          (omega (arith, div-le_self offset fs.block_size)) in
      (place fs a offset, rw (z, e, position_lem ok a offset small (omega arith)) refl)

  -- After whole blocks, or at the end.
  abbrev Between : ℕ → ℕ → Type 0
  Between k got = (got ≡ k * fs.block_size) ⊎ (got ≡ total)

  count_lem :
      (k got : ℕ)
      → got < total
      → Between k got
      → (0 < count fs.block_size got total)
        × (count fs.block_size got total ≤ fs.block_size)
        × (got + count fs.block_size got total ≤ total)
        × Between (k + 1) (got + count fs.block_size got total)
  count_lem k got h (inr end) = absurd (omega arith)
  count_lem k got h (inl whole) = elim (Bool-cases (leb (got + fs.block_size) total)) [
    | inl room ↦
        rw room (omega (arith, ok.large), omega arith, ground (arith, room), inl (omega arith))
    | inr last ↦
        let e = rest_lem total k fs.block_size (omega arith) (ground (arith, last)) in
        rw (last, e) (omega arith, ground (arith, last), omega arith, inr (omega arith))
  ]

  stopped :
      (got : ℕ) (buffer : List ℕ)
      → got ≡ total
      → IsRead fs.block_size total buffer (done (some got, buffer))
  stopped got buffer e = record {
    out = buffer;
    returns = rw e refl;
    size = refl;
    untouched = λ i h. refl;
  }

  IsRead-overwrite :
      (pos c : ℕ) {buffer : List ℕ} {o : Outcome (Option ℕ × List ℕ)}
      → c ≤ fs.block_size
      → IsRead fs.block_size total (overwrite (slice bytes pos c) buffer) o
      → IsRead fs.block_size total buffer o
  IsRead-overwrite pos c {buffer} le t = record {
    out = t.out;
    returns = t.returns;
    size = t.size ∙ length-overwrite (slice bytes pos c) buffer;
    untouched = λ i h.
        t.untouched i h
        ∙ get_or-overwrite (slice bytes pos c) buffer i (omega (arith, length-slice bytes pos c));
  }

  read_loop_lem :
      (fuel k got : ℕ) (buffer : List ℕ)
      → min total fs.block_size ≤ length buffer
      → got ≤ total
      → total ≤ got + fuel
      → k ≤ got
      → Between k got
      → IsRead fs.block_size total buffer (read_loop dev fs n offset total w fuel k got buffer)
  unfolding read_loop
  read_loop_lem zero k got buffer long le enough steps b =
      let end : ltb got total ≡ false = ground arith in rw end (stopped got buffer (omega arith))
  read_loop_lem (suc fuel) k got buffer long le enough steps b = elim (Bool-cases (ltb got total)) [
    | inr end ↦ rw (read_loop, end) (stopped got buffer (ground (arith, end)))
    | inl more ↦
        let (pos, at) = round_position_total k (ground (arith, more)) in
        let (pos_count, at_most, inside, next) = count_lem k got (ground (arith, more)) b in
        let c = count fs.block_size got total in
        let fits : length (slice bytes pos c) ≤ length buffer =
          omega (arith, length-slice bytes pos c) in
        let copied : copy_to (slice bytes pos c) buffer
            ≡ done (overwrite (slice bytes pos c) buffer) =
          copy_to-fits (slice bytes pos c) buffer fits in
        let still : min total fs.block_size ≤ length (overwrite (slice bytes pos c) buffer) =
          omega (arith, length-overwrite (slice bytes pos c) buffer) in
        rw (read_loop, more, at, r.reads pos c pos_count (omega (arith, at_most, ok.small)), copied)
          (IsRead-overwrite pos c at_most (
            read_loop_lem fuel (k + 1) (got + c) (overwrite (slice bytes pos c) buffer) still inside
              (omega arith) (omega arith) next))
  ]

  -- On a volume that starts below 2^62 bytes and has blocks of 1 KiB to 64 KiB, where every read
  -- of one byte to 64 KiB from the disk succeeds, `Inode::read` of an inode with 12 direct pointers
  -- ends and reports all the bytes that it was asked for, for an offset and a number of bytes below
  -- 2^48 and a buffer that holds these bytes or a block, and it writes only to the first `block_size`
  -- bytes of the buffer, however many blocks it reads.
  pub inode_read-IsRead :
      (buffer : List ℕ)
      → min total fs.block_size ≤ length buffer
      → IsRead fs.block_size total buffer (inode_read dev fs n offset total buffer w)
  unfolding inode_read
  inode_read-IsRead buffer long =
      read_loop_lem total 0 0 buffer long (omega arith) (omega arith) (omega arith)
        (inl (omega arith))

  ended :
      (fuel k got : ℕ) (buffer : List ℕ)
      → got ≡ total
      → read_loop dev fs n offset total w fuel k got buffer ≡ done (some total, buffer)
  unfolding read_loop
  ended zero k got buffer e =
      let stop : ltb got total ≡ false = ground arith in rw (read_loop, stop, e) refl
  ended (suc fuel) k got buffer e =
      let stop : ltb got total ≡ false = ground arith in rw (read_loop, stop, e) refl

  one_count : 0 < total → total ≤ fs.block_size → count fs.block_size 0 total ≡ total
  one_count pos fits = elim (Bool-cases (leb (0 + fs.block_size) total)) [
    | inl whole ↦ rw whole (ground (arith, whole))
    | inr part ↦ rw part (mod-eq_of_lt (ground (arith, part)))
  ]

  first_round :
      (fuel : ℕ) (buffer : List ℕ)
      → 0 < total
      → offset + total ≤ fs.block_size
      → total ≤ length buffer
      → read_loop dev fs n offset total w (suc fuel) 0 0 buffer
        ≡ done (
          some total,
          overwrite (slice bytes (place fs (get_or n.direct_pointer 0 0) offset) total) buffer,
        )
  unfolding read_loop round_position
  first_round fuel buffer pos fits long =
      let more : ltb 0 total ≡ true = ground arith in
      let z : (fs.block_size == 0) ≡ false = ground (arith, ok.large) in
      let none_before : offset / fs.block_size ≡ 0 = div-eq_of_lt (omega arith) in
      let index : offset / fs.block_size + 0 ≡ 0 = omega arith in
      let at = get_block_address-eq-file_block ok r n 0 m (omega arith) (inr (omega arith)) in
      let here = position_lem ok (get_or n.direct_pointer 0 0) offset (m.blocks 0) (omega arith) in
      let all : count fs.block_size 0 total ≡ total = one_count pos (omega arith) in
      let spot = place fs (get_or n.direct_pointer 0 0) offset in
      rw
        (
          read_loop,
          more,
          z,
          index,
          at,
          here,
          all,
          r.reads spot total pos (omega (arith, ok.small)),
          copy_to-fits (slice bytes spot total) buffer
              (omega (arith, length-slice bytes spot total)),
          ended fuel (0 + 1) (0 + count fs.block_size 0 total)
              (overwrite (slice bytes spot total) buffer) (omega (arith, all)),
        )
        refl

  -- On such a volume and for such an inode, a read that lies in the first block of a file, is not
  -- empty and fits the buffer, returns that block's bytes from the offset on, at the start of the buffer.
  pub inode_read-first_block :
      (buffer : List ℕ)
      → 0 < total
      → offset + total ≤ fs.block_size
      → total ≤ length buffer
      → inode_read dev fs n offset total buffer w
        ≡ done (
          some total,
          overwrite (slice bytes (place fs (get_or n.direct_pointer 0 0) offset) total) buffer,
        )
  unfolding inode_read
  inode_read-first_block buffer pos fits long =
      let some_fuel : total ≡ suc (total - 1) = omega arith in
      ap (λ (fuel : ℕ). read_loop dev fs n offset total w fuel 0 0 buffer) some_fuel
      ∙ first_round (total - 1) buffer pos fits long
