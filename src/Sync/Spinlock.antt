-- ===== src/Sync/Spinlock.antt =====
-- spinlock.rs: the lock, and any number of processors that take it, use its value and give it back,
-- interleaved in any order. `Ordering` is that of one memory: each access takes effect at once.
pub mod Exclusion
pub mod Progress
use griffin.Common.{ℕ, suc, ◌≡◌, Bool, true, false, Option, none, some, ◌==◌, if◌then◌else◌}

pub record Spinlock (T : Type 0) : Type 0 where
  pub flag : Bool
  pub value : T

-- `Spinlock::new`
abbrev pub new_lock : {T : Type 0} → T → Spinlock T
new_lock v = record { flag = false; value = v }

-- `compare_exchange(false, true)`: the new lock, or none where it fails.
unfoldable pub compare_exchange : {T : Type 0} → Spinlock T → Option (Spinlock T)
compare_exchange l = if l.flag then none else some (record l { flag = true })

unfoldable pub unlock : {T : Type 0} → Spinlock T → Spinlock T
unlock l = record l { flag = false }

abbrev pub update : {A : Type 0} → (ℕ → A) → ℕ → A → ℕ → A
update g i a j = if j == i then a else g j

module _ {T : Type 0} (f : T → T) where
  -- Where a processor stands: outside, in the loop of `lock`, between `lock` and `unlock`, and there
  -- with the value that it read.
  pub data Pc : Type 0 where
    outside : Pc
    spinning : Pc
    holding : Pc
    loaded : T → Pc

  -- A step of one processor. Between `lock` and `unlock` it reads the value and writes back its image
  -- under `f`, any number of times; the number of writes is counted.
  pub data Move (l : Spinlock T) (n : ℕ) : Pc → Spinlock T → ℕ → Pc → Type 0 where
    begin : Move l n outside l n spinning
    fail : compare_exchange l ≡ none → Move l n spinning l n spinning
    acquire : {l' : Spinlock T} → compare_exchange l ≡ some l' → Move l n spinning l' n holding
    load : Move l n holding l n (loaded l.value)
    store : {v : T} → Move l n (loaded v) (record l { value = f v }) (suc n) holding
    release : Move l n holding (unlock l) n outside

  pub record System : Type 0 where
    pub lock : Spinlock T
    pub writes : ℕ
    pub pc : ℕ → Pc

  pub data Step (s : System) : System → Type 0 where
    pick :
        (i : ℕ) {l : Spinlock T} {n : ℕ} {p : Pc}
        → Move s.lock s.writes (s.pc i) l n p
        → Step s (record { lock = l; writes = n; pc = update s.pc i p })

  abbrev pub initial : T → System
  initial v = record { lock = new_lock v; writes = 0; pc = λ i. outside }

  -- Some steps, one after the other.
  pub data Steps (s : System) : System → Type 0 where
    here : Steps s s
    next : {t u : System} → Steps s t → Step t u → Steps s u
