-- ===== src/Proc.antt =====
-- The process table of xv6-public_2/proc.c and proc.h. A `struct proc *` is 0 for NULL and `i + 1`
-- for slot `i` of `ptable.proc`; sleep channels are addresses too. Every function here runs with
-- `ptable.lock` held, or stands for the stretch of code that does. Tick counts and process ids are
-- numbers without bound, and the saved kernel context of a process is left out.
pub mod Table
pub mod Life
pub mod Wake
pub mod Sched
pub mod Signal
pub mod Keys
mod Tests
use col.Base.{Bool, List, Option, false, true, ℕ, ℤ, ◌+◌}

-- `enum procstate`
pub data State : Type 0 where
  unused embryo sleeping runnable running zombie custom_wait : State

-- `struct trapframe`: the registers that the kernel sets, and the others.
pub record Trapframe : Type 0 where
  pub eax : ℕ
  pub esp : ℕ
  pub eip : ℕ
  pub others : List ℕ

-- `struct proc`. `first_cpu_time` is `none` for -1, `saved_tf` is `none` for a null pointer, and in
-- `ofile` and `cwd` 0 is a null pointer, also for entries past the end of the list.
pub record Proc : Type 0 where
  pub sz : ℕ
  pub pgdir : ℕ
  pub kstack : ℕ
  pub state : State
  pub pid : ℕ
  pub parent : ℕ
  pub tf : Trapframe
  pub chan : ℕ
  pub killed : Bool
  pub ofile : List ℕ
  pub cwd : ℕ
  pub name : List ℕ
  pub b : Bool
  pub pending_signal : Bool
  pub signal_handler : ℕ
  pub saved_tf : Option Trapframe
  pub custom : Bool
  pub start_later : Bool
  pub exec_time : ℤ
  pub creation_time : ℕ
  pub first_cpu_time : Option ℕ
  pub finish_time : ℕ
  pub rtime : ℕ
  pub context_switches : ℕ
  pub init_priority : ℕ
  pub waiting_time : ℕ

-- The kernel's variables of this file, with the reference counts of open files and inodes that
-- `filedup`, `fileclose`, `idup` and `iput` change, and the count of ticks.
pub record Kernel : Type 0 where
  pub ptable : List Proc
  pub initproc : ℕ
  pub nextpid : ℕ
  pub ticks : ℕ
  pub file_refs : ℕ → ℕ
  pub inode_refs : ℕ → ℕ

abbrev pub is_state : State → State → Bool
is_state unused unused = true
is_state embryo embryo = true
is_state sleeping sleeping = true
is_state runnable runnable = true
is_state running running = true
is_state zombie zombie = true
is_state custom_wait custom_wait = true
is_state _ _ = false

-- `&ptable.proc[i]`
abbrev pub ptr : ℕ → ℕ
ptr i = i + 1
