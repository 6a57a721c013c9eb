-- ===== src/Proc/Life.antt =====
-- `allocproc`, `fork`, `custom_fork`, `exit` and `wait` of xv6-public_2/proc.c. The page that
-- `kalloc` returns for the stack and the page table that `copyuvm` returns are arguments, 0 where
-- the call fails.
pub mod Pids
pub mod Exit
pub mod ExitPids
pub mod Reuse
pub mod Alloc
pub mod Spawn
pub mod Steps
use col.Base.{
  Bool, List, Option, [], count_up, false, get_or, if◌then◌else◌, length, none, not, replicate, set,
  some, true, ℕ, ℤ, ◌&&◌, ◌+◌, ◌-◌, ◌==◌, ◌||◌, ◌∷◌,
}
use col.Proc.{
  State, unused, embryo, sleeping, runnable, running, zombie, custom_wait, is_state, ptr, Trapframe,
  Proc, Kernel,
}
use col.Proc.Table.{slot, put_slot, blank, add_ref, drop_ref, dup_all, close_all}
use col.Proc.Wake.{wakeup1}

-- INIT_PRIORITY of the Makefile.
abbrev pub default_priority : ℕ
default_priority = 50

unfoldable pub find_unused : List Proc → ℕ → Option ℕ
find_unused [] i = none
find_unused (p ∷ ps) i =
    let rest = find_unused ps (i + 1) in if is_state p.state unused then some i else rest

-- What `allocproc` sets in the slot that it found.
abbrev pub fresh : Kernel → Proc → Proc
fresh k p = record p {
  state = embryo;
  pid = k.nextpid;
  creation_time = k.ticks;
  first_cpu_time = none;
  finish_time = 0;
  rtime = 0;
  context_switches = 0;
  init_priority = default_priority;
}

-- The slot when `allocproc` is done with it: the page for the stack may be missing.
abbrev pub with_stack : ℕ → Proc → Proc
with_stack stack p =
    if stack == 0 then record p { kstack = 0; state = unused } else record p { kstack = stack }

-- The new kernel, and the slot if the call succeeds. The trap frame at the top of the new stack is
-- not set here: each caller fills it.
unfoldable pub allocproc : (stack : ℕ) → Kernel → Kernel × Option ℕ
allocproc stack k = elim (find_unused k.ptable 0) [
  | none ↦ (k, none)
  | some i ↦ (
    put_slot (record k { nextpid = k.nextpid + 1 }) i (with_stack stack (fresh k (slot k i))),
    if stack == 0 then none else some i,
  )
]

-- The loop over `ofile`: where the parent's entry is null the child's stays.
abbrev pub inherit_files : List ℕ → List ℕ → List ℕ
inherit_files [] old = old
inherit_files (f ∷ fs) [] = f ∷ fs
inherit_files (f ∷ fs) (g ∷ old) = (if f == 0 then g else f) ∷ inherit_files fs old

-- What the child gets from its parent.
abbrev pub inherit : Proc → ℕ → ℕ → Proc → Proc
inherit c cur pgdir np = record np {
  pgdir = pgdir;
  sz = c.sz;
  parent = ptr cur;
  tf = record c.tf { eax = 0 };
  ofile = inherit_files c.ofile np.ofile;
  cwd = c.cwd;
  name = c.name;
}

-- The child in slot `i` of a table where `allocproc` took that slot.
unfoldable pub adopt : (pgdir cur i : ℕ) → Kernel → Kernel
adopt pgdir cur i k = record (put_slot k i (inherit (slot k cur) cur pgdir (slot k i))) {
  file_refs = dup_all (slot k cur).ofile k.file_refs;
  inode_refs = add_ref k.inode_refs (slot k cur).cwd;
}

-- The slot is given up where `copyuvm` failed.
unfoldable pub give_up : ℕ → Kernel → Kernel
give_up i k = put_slot k i (record (slot k i) { pgdir = 0; kstack = 0; state = unused })

-- The steps that `fork` and `custom_fork` share: `none` is the return of -1.
unfoldable pub spawn : (stack pgdir cur : ℕ) → Kernel → Kernel × Option ℕ
spawn stack pgdir cur k =
    let (k1, got) = allocproc stack k in
    elim got [
      | none ↦ (k1, none)
      | some i ↦ if pgdir == 0 then (give_up i k1, none) else (adopt pgdir cur i k1, some i)
    ]

-- The child's slot stands in place of its pid, which the slot holds.
unfoldable pub fork : (stack pgdir cur : ℕ) → Kernel → Kernel × Option ℕ
fork stack pgdir cur k =
    let (k1, got) = spawn stack pgdir cur k in
    elim got [
      | none ↦ (k1, none)
      | some i ↦ (put_slot k1 i (record (slot k1 i) { state = runnable; b = false }), some i)
    ]

abbrev pub customize : Bool → ℤ → Proc → Proc
customize later time np = record np {
  custom = true;
  start_later = later;
  exec_time = time;
  rtime = 0;
  state = if later then custom_wait else runnable;
  b = if later then np.b else false;
}

pub custom_fork : Bool → ℤ → (stack pgdir cur : ℕ) → Kernel → Kernel × Option ℕ
custom_fork later time stack pgdir cur k =
    let (k1, got) = spawn stack pgdir cur k in
    elim got [
      | none ↦ (k1, none)
      | some i ↦ (put_slot k1 i (customize later time (slot k1 i)), some i)
    ]

-- What `exit` prints.
pub record Metrics : Type 0 where
  pub pid : ℕ
  pub turnaround : ℕ
  pub waiting : ℕ
  pub response : ℕ
  pub switches : ℕ

pub metrics : Proc → Metrics
metrics p = record {
  pid = p.pid;
  turnaround = p.finish_time - p.creation_time;
  waiting = p.waiting_time;
  response = elim p.first_cpu_time [ none ↦ 0 | some t ↦ t - p.creation_time ];
  switches = p.context_switches;
}

-- One round of the loop that passes children on to `initproc`, which a zombie among them wakes.
pub pass_on : (cur initproc i : ℕ) → List Proc → List Proc
pass_on cur initproc i ps =
    let p = get_or ps i blank in
    let moved = set ps i (record p { parent = ptr initproc }) in
    if p.parent == ptr cur
    then (if is_state p.state zombie then wakeup1 (ptr initproc) moved else moved)
    else ps

pub reparent : (cur initproc : ℕ) → List Proc → List Proc
reparent cur initproc ps = count_up (length ps) 0 (pass_on cur initproc) ps

-- The files and the directory are given up, and the time is noted.
abbrev pub closed : ℕ → Proc → Proc
closed now c = record c { ofile = replicate (length c.ofile) 0; cwd = 0; finish_time = now }

-- The table when `exit` calls `sched`.
pub exit_table : ℕ → Kernel → List Proc
exit_table cur k =
    let told = wakeup1 (slot k cur).parent (set k.ptable cur (closed k.ticks (slot k cur))) in
    let passed = reparent cur k.initproc told in
    set passed cur (record (get_or passed cur blank) { state = zombie })

-- Up to the call of `sched`. `none` is the panic of the first process.
unfoldable pub exit : ℕ → Kernel → Option (Kernel × Metrics)
exit cur k =
    if cur == k.initproc
    then none
    else some (
      record k {
        ptable = exit_table cur k;
        file_refs = close_all (slot k cur).ofile k.file_refs;
        inode_refs = drop_ref k.inode_refs (slot k cur).cwd;
      },
      metrics (closed k.ticks (slot k cur)),
    )

-- What one round of the loop of `wait` comes to. `background` is the return that Ctrl-B adds, of a
-- variable that may not be set.
pub data Waited : Type 0 where
  reaped : (pid kstack pgdir : ℕ) → Waited
  background : Waited
  childless : Waited
  asleep : Waited

-- A reaped slot.
abbrev pub clear : Proc → Proc
clear p = record p { kstack = 0; pid = 0; parent = 0; name = []; killed = false; state = unused }

-- The scan: the table afterwards, and the outcome unless the loop ran to its end; then `havekids`.
pub wait_scan : (cur cur_pid : ℕ) → Bool → List Proc → List Proc × Option Waited × Bool
wait_scan cur cur_pid kids [] = ([], none, kids)
wait_scan cur cur_pid kids (p ∷ ps) =
    let (ps', out, kids') = wait_scan cur cur_pid (kids || p.parent == ptr cur) ps in
    if not (p.parent == ptr cur)
    then (p ∷ ps', out, kids')
    else if is_state p.state zombie
    then (clear p ∷ ps, some (reaped p.pid p.kstack p.pgdir), true)
    else if p.b && cur_pid == 2
    then (p ∷ ps, some background, true)
    else (p ∷ ps', out, kids')

-- One round of the loop. A process that is to sleep sleeps on its own address.
pub wait : ℕ → Kernel → Kernel × Waited
wait cur k =
    let (ps, out, kids) = wait_scan cur (slot k cur).pid false k.ptable in
    elim out [
      | some w ↦ (record k { ptable = ps }, w)
      | none ↦
          if not kids || (slot k cur).killed
          then (k, childless)
          else (put_slot k cur (record (slot k cur) { chan = ptr cur; state = sleeping }), asleep)
    ]
