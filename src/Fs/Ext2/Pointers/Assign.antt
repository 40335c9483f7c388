-- ===== src/Fs/Ext2/Pointers/Assign.antt =====
-- A block address that was set is the one that is found.
use griffin.Common.{
  ℕ, ◌+◌, ◌-◌, ◌^◌, ◌<◌, ◌≡◌, ◌≢◌, ◌⊎◌, inl, inr, refl, sym, ap, ◌∙◌, true, false, Option, some,
  List, length, get_elem?, set as set_elem, length-set, get_or-set_self, get_elem?-eq-get_or,
  Outcome, done, panic, ◌>>=◌, expect, ltb, ◌==◌, mul_checked, arith, Bool-cases,
}
use griffin.Fs.Device.{Device, IsDisk}
use griffin.Fs.Ext2.Layout.{Inode, le32, u32_at}
use griffin.Fs.Ext2.Layout.Codec.{join32}
use griffin.Fs.Ext2.Volume.{Ext2Filesystem, position, inode_flush}
use griffin.Fs.Ext2.Volume.Stored.{read-write, expect-done}
use griffin.Fs.Ext2.Pointers.{
  addresses_per_block, read_entry, write_entry, get_block_address, set_direct, set_singly,
  set_block_address,
}

-- The position that two steps compute, and what follows from it.
bind-done :
    {A B : Type 0} (o : Outcome ℕ) (f : ℕ → Outcome A) (g : A → Outcome B) (b : B)
    → (o >>= λ x. f x >>= g) ≡ done b
    → (a : A) × ((o >>= f) ≡ done a) × (g a ≡ done b)
bind-done panic f g b h = absurd cc
bind-done {A} {B} (done x) f g b h = first (f x) refl h
  where
    first :
        (p : Outcome A) → f x ≡ p → (p >>= g) ≡ done b → (a : A) × (f x ≡ done a) × (g a ≡ done b)
    first panic e h' = absurd cc
    first (done a) e h' = (a, e, h')

bind_assoc :
    {A B : Type 0} (o : Outcome ℕ) (f : ℕ → Outcome A) (g : A → Outcome B) (a : A)
    → (o >>= f) ≡ done a
    → (o >>= λ x. f x >>= g) ≡ g a
bind_assoc panic f g a h = absurd cc
bind_assoc {A} {B} (done x) f g a h = ap (λ (p : Outcome A). p >>= g) h

-- A result that only carries on the state.
with_state-done :
    {A B : Type 0} (o : Outcome B) (m n : A) (b : B)
    → ◌≡◌ {A = Outcome (A × B)} (◌>>=◌ {B = A × B} o (λ x. done (m, x))) (done (n, b))
    → (m ≡ n) × (o ≡ done b)
with_state-done panic m n b h = absurd cc
with_state-done (done x) m n b h = (cc, cc)

module _ {World : Type 0} {dev : Device World} {bytes : World → ℕ → ℕ} (disk : IsDisk dev bytes)
    (readable : (w : World) (p n : ℕ) → (bs : List ℕ) × (dev.read w p n ≡ some bs))
    (fs : Ext2Filesystem) where
  read_entry-write_entry :
      (block k value : ℕ) (w w' : World)
      → value < 2 ^ 32
      → write_entry dev fs block k value w ≡ done w'
      → read_entry dev fs block k w' ≡ done value
  unfolding read_entry write_entry
  read_entry-write_entry block k value w w' small h =
      let (pos, at, wrote) =
        bind-done (mul_checked k 4) (position fs block) (λ p. expect (dev.write w p (le32 value)))
          w' h in
      let (bs, got) = readable w' pos 4 in
      let same : bs ≡ le32 value =
        read-write disk pos (le32 value) bs w w'
          (expect-done (dev.write w pos (le32 value)) w' wrote) got in
      bind_assoc (mul_checked k 4) (position fs block)
        (λ p. expect (dev.read w' p 4) >>= λ out. done (u32_at out 0)) pos at
      ∙ rw (got, same) (ap (λ (x : ℕ). done x) (join32 value small))

  after_direct :
      (n n' : Inode) (i address : ℕ) (w w' : World)
      → i < length n.direct_pointer
      → set_direct dev fs n i address w ≡ done (n', w')
      → expect (get_elem? n'.direct_pointer i) ≡ done address
  unfolding set_direct
  after_direct n n' i address w w' inside h =
      let m = record n { direct_pointer = set_elem n.direct_pointer i address } in
      let (same, flushed) = with_state-done (inode_flush dev fs m w) m n' w' h in
      let found : get_elem? m.direct_pointer i ≡ some address =
        get_elem?-eq-get_or m.direct_pointer i 0
          (omega (arith, length-set n.direct_pointer i address))
        ∙ ap (λ (x : ℕ). some x) (get_or-set_self n.direct_pointer i address 0 inside) in
      ap (λ (k : Inode). expect (get_elem? k.direct_pointer i)) (sym same)
      ∙ ap (λ (o : Option ℕ). expect o) found

  after_singly :
      (n n' : Inode) (i address : ℕ) (w w' : World)
      → n.singly_ip ≢ 0
      → address < 2 ^ 32
      → set_singly dev fs n i address w ≡ done (n', w')
      → read_entry dev fs n'.singly_ip i w' ≡ done address
  unfolding set_singly
  after_singly n n' i address w w' there small h =
      let z : (n.singly_ip == 0) ≡ false = ground (arith, there) in
      let step : set_singly dev fs n i address w
          ≡ (write_entry dev fs n.singly_ip i address w >>= λ w''. done (n, w'')) =
        rw z refl in
      let (same, wrote) =
        with_state-done (write_entry dev fs n.singly_ip i address w) n n' w' (sym step ∙ h) in
      ap (λ (k : Inode). read_entry dev fs k.singly_ip i w') (sym same)
      ∙ read_entry-write_entry n.singly_ip i address w w' small wrote

  -- After `set_block_address` ends, `get_block_address` finds the address, below 2^32, at the
  -- index, on a disk that keeps what is written and whose reads succeed, for an inode with 12
  -- direct pointers and a direct index or one behind a block of addresses that the file has.
  pub get_block_address-set_block_address :
      (n n' : Inode) (index address : ℕ) (w w' : World)
      → length n.direct_pointer ≡ 12
      → address < 2 ^ 32
      → (index < 12) ⊎ ((index < 12 + addresses_per_block fs) × (n.singly_ip ≢ 0))
      → set_block_address dev fs n index address w ≡ done (n', w')
      → get_block_address dev fs n' index w' ≡ done address
  unfolding get_block_address set_block_address
  get_block_address-set_block_address n n' index address w w' size small reach h =
      elim (Bool-cases (ltb index 12)) [
        | inl direct ↦
            let step : set_block_address dev fs n index address w
                ≡ set_direct dev fs n index address w =
              rw direct refl in
            rw direct
              (after_direct n n' index address w w' (ground (arith, direct, size)) (sym step ∙ h))
        | inr behind ↦
            let near : ltb (index - 12) (addresses_per_block fs) ≡ true =
              ground (arith, behind, reach) in
            let there : n.singly_ip ≢ 0 = elim reach [
              | inl low ↦ absurd (ground (arith, behind, low))
              | inr (low, some_block) ↦ some_block
            ] in
            let step : set_block_address dev fs n index address w
                ≡ set_singly dev fs n (index - 12) address w =
              rw (behind, near) refl in
            rw (behind, near)
              (after_singly n n' (index - 12) address w w' there small (sym step ∙ h))
      ]
