-- ===== src/Mm/Ranges.antt =====
-- mm/vmm.rs: the ranges of an address space, `VirtualMemManager::new` and `mmap`. `flags` are the bit
-- operations of the `bitflags` crate; `get_free_range` is `todo!()` in the source, which panics.
pub mod Lookup
pub mod Pages
pub mod Mmap
pub mod Spaces
use griffin.Common.{
  ℕ, zero, suc, ◌+◌, ◌-◌, Bool, true, false, ◌&&◌, ◌||◌, not, Option, none, some, List, [], ◌∷◌,
  ◌++◌, Outcome, done, panic, ◌>>=◌, expect, ltb, if◌then◌else◌, add_checked,
}
use griffin.Arch.PhysAddr.{page_size, higher_half}
use griffin.Arch.Pmm.{Machine, calloc}
use griffin.Arch.Memory.{load, store, offset}
use griffin.Utils.Math.Laws.{ceil}
use griffin.Mm.Flags.{Bitflags}
use griffin.Mm.Flags.PageFlags
use griffin.Mm.Flags.MapFlags
use griffin.Mm.Flags.Prot.{page_flags}
use griffin.Mm.Vmm.{map_page}
use griffin.Fs.Vfs.{FileDescription}

pub record VirtMemoryRange (Fs : Type 0) : Type 0 where
  pub base : ℕ
  pub length : ℕ
  pub prot : ℕ
  pub flags : ℕ
  pub file_offset : ℕ
  pub fd : Option (FileDescription Fs)

pub record VirtualMemManager (Fs : Type 0) : Type 0 where
  pub pagemap : ℕ
  pub ranges : List (VirtMemoryRange Fs)

-- `pml4_ptr[index] = kernel_vmm_ptr[index]`
abbrev pub copy_entry : ℕ → ℕ → ℕ → Machine → Machine
copy_entry to from index m = store (offset to index) (load (offset from index) m) m

module _ {Fs : Type 0} where
  -- `kernel` is the pagemap of the kernel's own manager, none before `init`.
  unfoldable pub new_vmm : Bool → Option ℕ → Machine → Outcome (VirtualMemManager Fs × Machine)
  new_vmm usermode kernel m =
      if not usermode then done (record { pagemap = 0; ranges = [] }, m) else (do
        (page, m') ← calloc 1 m
        pml4 ← expect page
        kernel_pml4 ← expect kernel
        let m'' = copy_entry (higher_half pml4) kernel_pml4 256 m'
        done (
          record { pagemap = pml4; ranges = [] },
          copy_entry (higher_half pml4) kernel_pml4 511 m'',
        ))

  abbrev pub start : VirtMemoryRange Fs → ℕ
  start r = r.base

  abbrev pub end : VirtMemoryRange Fs → Outcome ℕ
  end r = add_checked r.base r.length

  -- `a > entry.start() && a < entry.end()`: the end is computed only where the first test holds.
  abbrev pub inside : ℕ → VirtMemoryRange Fs → Outcome Bool
  inside a r = if ltb (start r) a then (do top ← end r; done (ltb a top)) else done false

  unfoldable pub get_range : ℕ → List (VirtMemoryRange Fs) → Outcome (Option (VirtMemoryRange Fs))
  get_range a [] = done none
  get_range a (r ∷ rest) =
      let later = get_range a rest in inside a r >>= λ found. if found then done (some r) else later

  -- Whether an end of the new range lies inside an old one.
  unfoldable pub meets : ℕ → ℕ → List (VirtMemoryRange Fs) → Outcome Bool
  meets low high [] = done false
  meets low high (r ∷ rest) =
      let later = meets low high rest in
      inside low r >>= λ p.
      if p then done true else inside high r >>= λ q. if q then done true else later

  module _ (flags : Bitflags) where
    open flags use {contains, union}

    abbrev pub is_anon_map : VirtMemoryRange Fs → Bool
    is_anon_map r = contains r.flags MapFlags.anonymous

    abbrev pub is_private_map : VirtMemoryRange Fs → Bool
    is_private_map r = contains r.flags MapFlags.private

    abbrev pub is_shared_map : VirtMemoryRange Fs → Bool
    is_shared_map r = contains r.flags MapFlags.shared

  -- The address of the new range; a free one cannot be found yet.
  abbrev pub choose : Bool → ℕ → List (VirtMemoryRange Fs) → Option ℕ → Outcome ℕ
  choose fixed length ranges none = panic
  choose fixed length ranges (some a) = do
    high ← add_checked a length
    met ← (if fixed then done false else meets a high ranges)
    if met then panic else done a

-- Each page of the range gets the entry `page_flags`, which is not present.
unfoldable pub map_range : Bitflags → ℕ → ℕ → ℕ → ℕ → Machine → Outcome Machine
map_range flags pagemap entry page zero m = done m
map_range flags pagemap entry page (suc left) m =
    map_page flags pagemap page 0 entry true m
    >>= map_range flags pagemap entry (page + page_size) left

module _ {Fs : Type 0} (flags : Bitflags) where
  open flags use {contains, union}

  unfoldable pub mmap :
      Option ℕ
      → ℕ
      → ℕ
      → ℕ
      → Option (FileDescription Fs)
      → ℕ
      → VirtualMemManager Fs
      → Machine
      → Outcome (VirtualMemManager Fs × Machine)
  mmap address length prot map_flags fd file_offset vmm m =
      let fixed = contains map_flags MapFlags.fixed in
      let at = choose fixed length vmm.ranges address >>= λ range_address.
      add_checked range_address length >>= λ top.
      map_range flags vmm.pagemap (union (page_flags flags prot) PageFlags.mmaped) range_address
        (ceil (top - range_address) page_size) m
      >>= λ m'. done (
        record vmm {
          ranges =
              vmm.ranges
              ++ (record {
                base = range_address;
                length = length;
                prot = prot;
                flags = map_flags;
                file_offset = file_offset;
                fd = fd;
              }
                  ∷ []);
        },
        m',
      ) in
      elim address [ none ↦ if fixed then done (vmm, m) else at | some a ↦ at ]
