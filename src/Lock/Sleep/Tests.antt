-- ===== src/Lock/Sleep/Tests.antt =====
-- A sleep lock that two processes want.
use col.Base.{[], ◌∷◌}
use col.Proc.{running, Kernel}
use col.Proc.Table.{blank}

-- The lock is at the address 77: the first has it, the second sleeps on it.
abbrev two_running : Kernel
two_running = record {
  ptable =
      record blank { state = running; pid = 3 } ∷ record blank { state = running; pid = 4 } ∷ [];
  initproc = 0;
  nextpid = 5;
  ticks = 0;
  file_refs = λ x. 1;
  inode_refs = λ x. 1;
}
