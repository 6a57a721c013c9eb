-- ===== src/Lock/Sleep/Wakeups.antt =====
-- No wakeup of a sleep lock is lost.
use col.Base.{ℕ, ◌≡◌, ◌≢◌}
use col.Proc.{Proc}
use col.Proc.Table.{slot}
use col.Lock.Sleep.{holding, State, IsAsleep}

record Inv (chan : ℕ) (s : State) : Type 0 where
  guarded : (i : ℕ) → IsAsleep chan (slot s.kernel i) → s.lock.locked ≢ 0
  owned : s.lock.locked ≢ 0 → (i : ℕ) × (s.pc i ≡ holding)
  owner : (i : ℕ) → s.pc i ≡ holding → (s.lock.locked ≢ 0) × (s.lock.pid ≡ (slot s.kernel i).pid)
  unique : (i j : ℕ) → s.pc i ≡ holding → s.pc j ≡ holding → i ≡ j
