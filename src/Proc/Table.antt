-- ===== src/Proc/Table.antt =====
-- Reading and writing slots of the process table.
use col.Base.{
  List, [], false, get_or, if◌then◌else◌, none, not, pos, set, some, ℕ, ◌&&◌, ◌+◌, ◌-◌, ◌==◌, ◌∷◌,
}
use col.Proc.{unused, Trapframe, Proc, Kernel}

abbrev pub zero_frame : Trapframe
zero_frame = record { eax = 0; esp = 0; eip = 0; others = [] }

-- A slot of the zeroed table.
abbrev pub blank : Proc
blank = record {
  sz = 0;
  pgdir = 0;
  kstack = 0;
  state = unused;
  pid = 0;
  parent = 0;
  tf = zero_frame;
  chan = 0;
  killed = false;
  ofile = [];
  cwd = 0;
  name = [];
  b = false;
  pending_signal = false;
  signal_handler = 0;
  saved_tf = none;
  custom = false;
  start_later = false;
  exec_time = pos 0;
  creation_time = 0;
  first_cpu_time = some 0;
  finish_time = 0;
  rtime = 0;
  context_switches = 0;
  init_priority = 0;
  waiting_time = 0;
}

abbrev pub slot : Kernel → ℕ → Proc
slot k i = get_or k.ptable i blank

abbrev pub put_slot : Kernel → ℕ → Proc → Kernel
put_slot k i p = record k { ptable = set k.ptable i p }

-- One more reference, and one less, to object `x`; 0 is the null pointer. What happens to an object
-- without references is not seen here.
abbrev pub add_ref : (ℕ → ℕ) → ℕ → ℕ → ℕ
add_ref refs x y = if y == x && not (x == 0) then refs y + 1 else refs y

abbrev pub drop_ref : (ℕ → ℕ) → ℕ → ℕ → ℕ
drop_ref refs x y = if y == x && not (x == 0) then refs y - 1 else refs y

-- `filedup` and `fileclose` over the open files of a process.
pub dup_all : List ℕ → (ℕ → ℕ) → ℕ → ℕ
dup_all [] refs = refs
dup_all (f ∷ fs) refs = dup_all fs (add_ref refs f)

pub close_all : List ℕ → (ℕ → ℕ) → ℕ → ℕ
close_all [] refs = refs
close_all (f ∷ fs) refs = close_all fs (drop_ref refs f)
