-- ===== src/Lock/Sleep.antt =====
-- The sleep locks of xv6-public_2/sleeplock.c over the process table. A function stands for a stretch of
-- code that holds the spinlock inside the lock, up to the next call of `sched`; `chan` is the address of
-- the sleep lock.
pub mod Wakeups
mod Tests
use native.Mathlib.Decide.{ℕ_discrete}
use mathlib.Core.Logic.{ite}
use col.Base.{Bool, false, if◌then◌else◌, true, ℕ, ◌&&◌, ◌==◌, ◌≡◌, ◌≢◌}
use col.Proc.{sleeping, is_state, Proc, Kernel}
use col.Proc.Table.{slot}
use col.Proc.Wake.{sleep, awake, wakeup}

-- `struct sleeplock`
pub record SleepLock : Type 0 where
  pub locked : ℕ
  pub pid : ℕ

-- The test of the loop of `acquiresleep` by the process in slot `cur`: it goes to sleep, or takes the
-- lock and leaves.
unfoldable pub try_acquire : (chan cur : ℕ) → SleepLock → Kernel → SleepLock × Kernel
try_acquire chan cur lk k =
    if lk.locked == 0
    then (record { locked = 1; pid = (slot k cur).pid }, k)
    else (lk, sleep cur chan k)

unfoldable pub releasesleep : (chan : ℕ) → SleepLock → Kernel → SleepLock × Kernel
releasesleep chan lk k = (record { locked = 0; pid = 0 }, wakeup chan k)

unfoldable pub holdingsleep : (cur : ℕ) → SleepLock → Kernel → Bool
holdingsleep cur lk k = if lk.locked == 0 then false else lk.pid == (slot k cur).pid

-- Where a process stands.
pub data Pc : Type 0 where
  outside testing asleep holding : Pc

pub record State : Type 0 where
  pub lock : SleepLock
  pub kernel : Kernel
  pub pc : ℕ → Pc

abbrev pub move : (ℕ → Pc) → ℕ → Pc → ℕ → Pc
move f i p j = ite (ℕ_discrete i j) p (f j)

abbrev pub after_test : SleepLock → Pc
after_test lk = if lk.locked == 0 then holding else asleep

abbrev pub IsAsleep : ℕ → Proc → Type 0
IsAsleep chan p = (is_state p.state sleeping ≡ true) × (p.chan ≡ chan)

-- One stretch of code of one process. `environment` is what the rest of the kernel does: it puts no
-- process to sleep on this lock, and a process that holds the lock keeps its pid.
pub data Step (chan : ℕ) (s : State) : State → Type 0 where
  enters : (cur : ℕ) → s.pc cur ≡ outside → Step chan s (record s { pc = move s.pc cur testing })
  tests :
      (cur : ℕ)
      → s.pc cur ≡ testing
      → Step chan s (record {
        lock = (try_acquire chan cur s.lock s.kernel).0;
        kernel = (try_acquire chan cur s.lock s.kernel).1;
        pc = move s.pc cur (after_test s.lock);
      })
  wakes :
      (cur : ℕ)
      → s.pc cur ≡ asleep
      → is_state (slot s.kernel cur).state sleeping ≡ false
      → Step chan s (record s { kernel = awake cur s.kernel; pc = move s.pc cur testing })
  releases :
      (cur : ℕ)
      → s.pc cur ≡ holding
      → Step chan s (record {
        lock = (releasesleep chan s.lock s.kernel).0;
        kernel = (releasesleep chan s.lock s.kernel).1;
        pc = move s.pc cur outside;
      })
  environment :
      (k : Kernel)
      → ((i : ℕ) → IsAsleep chan (slot k i) → IsAsleep chan (slot s.kernel i))
      → ((i : ℕ) → s.pc i ≡ holding → (slot k i).pid ≡ (slot s.kernel i).pid)
      → Step chan s (record s { kernel = k })

-- After `initsleeplock`, with no process asleep on the lock.
pub data Reach (chan : ℕ) : State → Type 0 where
  start :
      (k : Kernel)
      → ((i : ℕ) → IsAsleep chan (slot k i) → ⊥)
      → Reach chan (record { lock = record { locked = 0; pid = 0 }; kernel = k; pc = λ i. outside })
  later : {s t : State} → Reach chan s → Step chan s t → Reach chan t
