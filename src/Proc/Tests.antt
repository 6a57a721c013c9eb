-- ===== src/Proc/Tests.antt =====
-- The theorems on processes at a small process table.
use col.Base.{
  List, [], arith, false, get_or, none, pos, refl, some, subst, suc, sym, true, zero, ℕ, ◌+◌, ◌<◌,
  ◌∙◌, ◌∷◌, ◌≡◌, ◌≢◌,
}
use col.Proc.{sleeping, runnable, running, custom_wait, ptr, Proc, Kernel}
use col.Proc.Table.{close_all, drop_ref, slot, blank}
use col.Proc.Life.{fork, spawn, allocproc, find_unused, adopt, exit, exit_table, closed, metrics}
use col.Proc.Life.Pids.{IsLive, PidsOk}
use col.Proc.Life.Steps.{Reach, here, next, forks, kills, yields, Reach-PidsOk}
use col.Proc.Life.Exit.{exit-no_orphans}
use col.Proc.Life.Reuse.{fork_takes_over}
use col.Proc.Sched.Round.{Round}
use col.Proc.Sched.Turn.{nth_turn}
use col.Proc.Sched.Fair.{head_start, nth_turn-fair}
use col.Proc.Sched.{Choice}
use col.Proc.Signal.{
  magic_sigret, deliver, page_fault, fault_trap, send_sigcustom, Runs, computes, signalled,
  deliver_nested,
}
use col.Proc.Keys.{ctrl_b, ctrl_f, ctrl_b_f_starts}
use col.Proc.Wake.{kill_scan, yield, kill}

abbrev init : Proc
init = record blank { state = running; pid = 1; init_priority = 50 }

abbrev sh : Proc
sh = record blank {
  state = runnable;
  pid = 2;
  parent = 1;
  ofile = 7 ∷ [];
  cwd = 9;
  init_priority = 50;
}

-- a child of the shell with a time limit of 5 ticks, which has run for 4
abbrev job : Proc
job = record blank {
  state = runnable;
  pid = 3;
  parent = 2;
  exec_time = pos 5;
  rtime = 4;
  init_priority = 50;
  waiting_time = 6;
}

abbrev table : List Proc → Kernel
table ps = record {
  ptable = ps;
  initproc = 0;
  nextpid = 4;
  ticks = 10;
  file_refs = λ x. 1;
  inode_refs = λ x. 1;
}

abbrev machine : Kernel
machine = table (init ∷ sh ∷ job ∷ record blank { exec_time = pos 2 } ∷ [])

nth_turn-fair_example :
    (n : ℕ) × (n < head_start machine 1)
    × (c : Choice) × (nth_turn (λ i. i + 3) n 0 machine ≡ some c)
    × (c.at ≡ 1)
nth_turn-fair_example =
    nth_turn-fair (head_start machine 1) (λ i. i + 3) 0 1 machine (omega arith) refl (omega arith)

-- the kernel that `userinit` leaves, with room for two more processes
abbrev started : Kernel
started = record (table (init ∷ blank ∷ blank ∷ [])) { nextpid = 2 }

only_init : (i : ℕ) → IsLive (slot started i) → i ≡ 0
only_init zero h = refl
only_init (suc zero) h = cc
only_init (suc (suc zero)) h = cc
only_init (suc (suc (suc i))) h = cc

started-PidsOk : PidsOk started
started-PidsOk = record {
  below = λ i h. subst (λ x. (slot started x).pid < 2) (sym (only_init i h)) (omega arith);
  unique = λ i j h g e. only_init i h ∙ sym (only_init j g);
}

abbrev after_fork : Kernel
after_fork = (fork 5 6 0 started).0

run : Reach started (yield 0 (kill 2 after_fork).0)
unfolding fork spawn allocproc find_unused adopt kill kill_scan
run = next (next (next here (forks 5 6 0)) (kills 2)) (yields 0 refl)

Reach-PidsOk_example : PidsOk (yield 0 (kill 2 after_fork).0)
Reach-PidsOk_example = Reach-PidsOk started-PidsOk run

-- the table when the shell has exited
abbrev without_shell : Kernel
without_shell = record machine {
  ptable = exit_table 1 machine;
  file_refs = close_all (7 ∷ []) machine.file_refs;
  inode_refs = drop_ref machine.inode_refs 9;
}

exit-no_orphans_example : (slot without_shell 2).parent ≢ ptr 1
unfolding exit
exit-no_orphans_example = exit-no_orphans 1 machine without_shell (metrics (closed 10 sh)) refl 2

fork_takes_over_example :
    let p = slot (fork 5 6 1 machine).0 3 in
    (p.exec_time ≡ pos 2) × (p.waiting_time ≡ 0) × (p.killed ≡ false)
unfolding fork spawn allocproc find_unused adopt
fork_takes_over_example = fork_takes_over 5 6 1 machine 3 refl

abbrev handled : Proc
handled = record job {
  pending_signal = true;
  signal_handler = 64;
  tf = record { eax = 1; esp = 4096; eip = 200; others = [] };
}

-- the handler has changed its registers, and another signal has come
abbrev at_work : Proc
at_work = send_sigcustom (record (deliver true handled).0 { tf = record handled.tf { eip = 70 } })

at_work-Runs : Runs (deliver true handled).0 at_work
at_work-Runs = signalled (computes (record handled.tf { eip = 70 }) Runs.here)

abbrev second : Proc
second = (deliver true at_work).0

deliver_nested_example :
    (fault_trap true magic_sigret second ≡ some (page_fault magic_sigret second, none))
    × ((page_fault magic_sigret second).tf ≡ at_work.tf)
    × ((page_fault magic_sigret second).killed ≡ false)
    × (fault_trap true magic_sigret (page_fault magic_sigret second) ≡ none)
unfolding deliver send_sigcustom page_fault
deliver_nested_example =
    deliver_nested handled at_work second (page_fault magic_sigret second) true refl refl
      (λ e. absurd (omega arith)) at_work-Runs refl (λ e. absurd (omega arith)) Runs.here refl
      Runs.here

-- a sleeping job in slot 1, and one that waits to be started in slot 2
abbrev keyed : List Proc
keyed =
    record job { pid = 2; state = sleeping }
    ∷ record job { pid = 5; state = sleeping }
    ∷ record job { pid = 6; state = custom_wait }
    ∷ []

ctrl_b_f_starts_example :
    get_or (ctrl_f (ctrl_b keyed)) 2 blank ≡ record job { pid = 6; state = runnable; b = false }
ctrl_b_f_starts_example = ctrl_b_f_starts keyed 2 (omega arith) (omega arith)
