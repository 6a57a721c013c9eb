-- ===== src/Lock.antt =====
-- The spinlocks of xv6-public_2/spinlock.c, for one lock and any number of cpus. What a cpu does to
-- itself (`pushcli`, `popcli`) is a function; what it does to the lock is a step for each access to
-- memory, so that the cpus interleave inside `acquire`, `holding` and `release`. The names and call
-- stacks kept for debugging are left out.
pub mod Exclusion
pub mod Nesting
mod Moves
pub mod Sleep
mod Tests
use col.Base.{
  Bool, Option, arith, false, if◌then◌else◌, none, some, suc, true, zero, ℕ, ◌&&◌, ◌+◌, ◌-◌, ◌==◌,
  ◌≡◌, ◌≢◌,
}
use native.Mathlib.Decide.{ℕ_discrete}
use mathlib.Core.Logic.{ite}

-- `struct spinlock`; `cpu` is 0 or the index of a cpu.
pub record Spinlock : Type 0 where
  pub locked : ℕ
  pub cpu : Option ℕ

-- The interrupt flag of `%eflags`, with the fields of `struct cpu` that nest it.
pub record Cpu : Type 0 where
  pub flag : Bool
  pub ncli : ℕ
  pub intena : Bool

unfoldable pub pushcli : Cpu → Cpu
pushcli c = record {
  flag = false;
  ncli = c.ncli + 1;
  intena = if c.ncli == 0 then c.flag else c.intena;
}

-- `none` is a panic: interrupts are on, or `ncli` falls below 0.
unfoldable pub popcli : Cpu → Option Cpu
popcli c =
    if c.flag
    then none
    else if c.ncli == 0
    then none
    else some (record c { ncli = c.ncli - 1; flag = (c.ncli - 1) == 0 && c.intena })

pub data Call : Type 0 where
  acquiring releasing : Call

-- Where a cpu stands. The truth value of a call of `holding` says whether the caller holds the lock;
-- the code keeps no such variable.
pub data Pc : Type 0 where
  outside : Pc
  testing : Call → Bool → Pc  -- before `holding` reads `locked`
  comparing : Call → Bool → Pc  -- before it reads `cpu`
  answered : Call → Bool → Bool → Pc  -- `r` is known, before the `popcli`
  spinning : Pc  -- before the xchg
  won : Pc  -- before `lk->cpu = mycpu()`
  inside : Pc  -- after `acquire`
  granted : Pc  -- in `release`, before `lk->cpu = 0`
  cleared : Pc  -- before `movl $0`
  freed : Pc  -- before the `popcli` of `release`
  panicked : Call → Bool → Pc

-- `lock->cpu == mycpu()`
abbrev pub is_cpu : Option ℕ → ℕ → Bool
is_cpu none i = false
is_cpu (some j) i = j == i

-- What `acquire` and `release` do with the answer of `holding`.
abbrev pub after_holding : Call → Bool → Bool → Pc
after_holding acquiring owner true = panicked acquiring owner
after_holding acquiring owner false = spinning
after_holding releasing owner true = granted
after_holding releasing owner false = panicked releasing owner

-- One access to the lock by the cpu `i`, or one of its own `popcli`s. The cpu may call `acquire` and
-- `release` whether it holds the lock or not.
pub data Move (i : ℕ) (lk : Spinlock) (c : Cpu) : Pc → Spinlock → Cpu → Pc → Type 0 where
  acquires : Move i lk c outside lk (pushcli (pushcli c)) (testing acquiring false)
  acquires_held : Move i lk c inside lk (pushcli (pushcli c)) (testing acquiring true)
  releases : Move i lk c inside lk (pushcli c) (testing releasing true)
  releases_free : Move i lk c outside lk (pushcli c) (testing releasing false)
  reads_free :
      {k : Call} {owner : Bool}
      → lk.locked ≡ 0
      → Move i lk c (testing k owner) lk c (answered k owner false)
  reads_locked :
      {k : Call} {owner : Bool}
      → lk.locked ≢ 0
      → Move i lk c (testing k owner) lk c (comparing k owner)
  compares :
      {k : Call} {owner : Bool}
      → Move i lk c (comparing k owner) lk c (answered k owner (is_cpu lk.cpu i))
  pops :
      {k : Call} {owner r : Bool} {d : Cpu}
      → popcli c ≡ some d
      → Move i lk c (answered k owner r) lk d (after_holding k owner r)
  pop_panics :
      {k : Call} {owner r : Bool}
      → popcli c ≡ none
      → Move i lk c (answered k owner r) lk c (panicked k owner)
  spins : lk.locked ≢ 0 → Move i lk c spinning (record lk { locked = 1 }) c spinning
  wins : lk.locked ≡ 0 → Move i lk c spinning (record lk { locked = 1 }) c won
  records : Move i lk c won (record lk { cpu = some i }) c inside
  clears : Move i lk c granted (record lk { cpu = none }) c cleared
  frees : Move i lk c cleared (record lk { locked = 0 }) c freed
  leaves : {d : Cpu} → popcli c ≡ some d → Move i lk c freed lk d outside
  leave_panics : popcli c ≡ none → Move i lk c freed lk c (panicked releasing false)

-- A cpu, with the number of its `pushcli`s that belong to other locks.
pub record Thread : Type 0 where
  pub cpu : Cpu
  pub pc : Pc
  pub others : ℕ

pub record System : Type 0 where
  pub lock : Spinlock
  pub at_cpu : ℕ → Thread

abbrev pub update : (ℕ → Thread) → ℕ → Thread → ℕ → Thread
update f i t j = ite (ℕ_discrete i j) t (f j)

-- A step of one cpu. Between calls it may also enter and leave other locks, and while no `pushcli`
-- is open it may turn its interrupts on and off.
pub data Step (s : System) : System → Type 0 where
  moves :
      (i : ℕ) {lk : Spinlock} {c : Cpu} {p : Pc}
      → Move i s.lock (s.at_cpu i).cpu (s.at_cpu i).pc lk c p
      → Step s (record {
        lock = lk;
        at_cpu = update s.at_cpu i (record (s.at_cpu i) { cpu = c; pc = p });
      })
  pushes_other :
      (i : ℕ)
      → Step s (record s {
        at_cpu = update s.at_cpu i (record (s.at_cpu i) {
          cpu = pushcli (s.at_cpu i).cpu;
          others = suc (s.at_cpu i).others;
        });
      })
  pops_other :
      (i : ℕ) {n : ℕ} {c : Cpu}
      → (s.at_cpu i).others ≡ suc n
      → popcli (s.at_cpu i).cpu ≡ some c
      → Step s
          (record s { at_cpu = update s.at_cpu i (record (s.at_cpu i) { cpu = c; others = n }) })
  interrupts :
      (i : ℕ) (on : Bool)
      → (s.at_cpu i).cpu.ncli ≡ 0
      → Step s (record s {
        at_cpu =
            update s.at_cpu i (record (s.at_cpu i) { cpu = record (s.at_cpu i).cpu { flag = on } });
      })

-- After `initlock`, with every cpu outside and its interrupts on
abbrev pub init : System
init = record {
  lock = record { locked = 0; cpu = none };
  at_cpu = λ i. record {
    cpu = record { flag = true; ncli = 0; intena = false };
    pc = outside;
    others = 0;
  };
}

pub data Reach : System → Type 0 where
  start : Reach init
  later : {s t : System} → Reach s → Step s t → Reach t
