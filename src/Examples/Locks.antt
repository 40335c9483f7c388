-- ===== src/Examples/Locks.antt =====
-- Two processors that add one to a counter under its lock.
use griffin.Common.{ℕ, ◌+◌, ◌≡◌, refl, true}
use griffin.Sync.Spinlock.{
  Spinlock, compare_exchange, Pc, spinning, holding, begin, acquire, load, store, System, update,
  pick, initial, Steps, here, next,
}
use griffin.Sync.Spinlock.Exclusion.{iterate, mutual_exclusion, no_lost_write}
use griffin.Sync.Spinlock.Progress.{Gets, lock-Gets}

abbrev increment : ℕ → ℕ
increment n = n + 1

abbrev taken : Spinlock ℕ
taken = record { flag = true; value = 5 }

abbrev written : Spinlock ℕ
written = record { flag = true; value = 6 }

-- Processor 0 holds the lock and has written once; processor 1 waits.
abbrev contended : System increment
contended = record {
  lock = written;
  writes = 1;
  pc =
      update
        (update (update (update (update (λ i. Pc.outside) 0 spinning) 1 spinning) 0 holding) 0
          (Pc.loaded 5))
        0 holding;
}

contended-Steps : Steps increment (initial increment 5) contended
unfolding compare_exchange
contended-Steps =
    next
      (next
        (next (next (next here (pick 0 begin)) (pick 1 begin)) (pick 0 (acquire {l' = taken} refl)))
        (pick 0 load))
      (pick 0 store)

mutual_exclusion_example : ◌≡◌ {A = ℕ} 0 0
mutual_exclusion_example = mutual_exclusion 5 contended-Steps 0 0 refl refl

no_lost_write_example : contended.lock.value ≡ iterate increment contended.writes 5
no_lost_write_example = no_lost_write 5 contended-Steps

lock-Gets_example : Gets contended 1
lock-Gets_example = lock-Gets contended-Steps 1 refl
