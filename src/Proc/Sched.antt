-- ===== src/Proc/Sched.antt =====
-- The scheduler of xv6-public_2/proc.c: the scan for the best process, the switch to it, and the
-- accounts when it comes back. Priorities are integers without bound.
pub mod Order
pub mod Best
pub mod Round
pub mod Turn
pub mod Waits
pub mod Fair
use col.Base.{
  Bool, List, Option, [], false, if◌then◌else◌, leb, ltb, negsuc, none, not, pos, some, sub_ℕ, true,
  ℕ, ℤ, ◌&&◌, ◌*◌, ◌+◌, ◌-◌, ◌==◌, ◌∷◌,
}
use col.Proc.{State, runnable, running, is_state, Proc, Kernel}
use col.Proc.Table.{slot, put_slot}

-- ALPHA and BETA of the Makefile.
abbrev pub alpha : ℕ
alpha = 1

abbrev pub beta : ℕ
beta = 2

unfoldable pub calculate_dynamic_priority : Proc → ℤ
calculate_dynamic_priority p = sub_ℕ (p.init_priority + beta * p.waiting_time) (alpha * p.rtime)

-- `a < b` and `a == b` on `int`.
abbrev pub ltz : ℤ → ℤ → Bool
ltz (pos a) (pos b) = ltb a b
ltz (pos a) (negsuc b) = false
ltz (negsuc a) (pos b) = true
ltz (negsuc a) (negsuc b) = ltb b a

abbrev pub eqz : ℤ → ℤ → Bool
eqz (pos a) (pos b) = a == b
eqz (pos a) (negsuc b) = false
eqz (negsuc a) (pos b) = false
eqz (negsuc a) (negsuc b) = a == b

-- `chosen` with `best_priority`.
pub record Choice : Type 0 where
  pub at : ℕ
  pub pid : ℕ
  pub priority : ℤ

abbrev pub eligible : Proc → Bool
eligible p = is_state p.state runnable && not p.b

abbrev pub bump : Proc → Proc
bump p = record p { waiting_time = p.waiting_time + 1 }

abbrev pub choice : ℕ → Proc → Choice
choice i p = record { at = i; pid = p.pid; priority = calculate_dynamic_priority (bump p) }

unfoldable pub better : Choice → Choice → Choice
better best c =
    if ltz best.priority c.priority
    then c
    else if eqz c.priority best.priority
    then (if ltb c.pid best.pid then c else best)
    else best

unfoldable pub consider : Option Choice → Choice → Choice
consider none c = c
consider (some best) c = better best c

-- The scan from slot `i` on: the table with the waiting times counted, and the choice.
unfoldable pub pick : List Proc → ℕ → Option Choice → List Proc × Option Choice
pick [] i best = ([], best)
pick (p ∷ ps) i best =
    let (ps', found) =
      pick ps (i + 1) (if eligible p then some (consider best (choice i p)) else best) in
    ((if eligible p then bump p else p) ∷ ps', found)

-- What the chosen process gets before the switch.
abbrev pub prepare : ℕ → Proc → Proc
prepare now p = record p {
  first_cpu_time = elim p.first_cpu_time [ none ↦ some now | some t ↦ some t ];
  waiting_time = p.waiting_time - 1;
  state = running;
}

unfoldable pub dispatch : Choice → Kernel → Kernel
dispatch c k = put_slot k c.at (prepare k.ticks (slot k c.at))

-- One round of the scheduler's loop up to the switch: the kernel, and who runs.
unfoldable pub schedule : Kernel → Kernel × Option Choice
schedule k =
    let (ps, found) = pick k.ptable 0 none in
    let scanned = record k { ptable = ps } in
    elim found [ none ↦ (scanned, none) | some c ↦ (dispatch c scanned, some c) ]

-- `exec_time > 0 && rtime >= exec_time`
abbrev pub over_limit : ℤ → ℕ → Bool
over_limit (pos n) r = ltb 0 n && leb n r
over_limit (negsuc n) r = false

abbrev pub charge : (start_run now : ℕ) → Bool → Proc → Proc
charge start_run now switched p =
    let r = p.rtime + (now - start_run) in
    record p {
      rtime = r;
      context_switches = if switched then p.context_switches + 1 else p.context_switches;
      killed = if over_limit p.exec_time r then true else p.killed;
    }

-- After the switch back, with `prev_proc` (0, or a slot and 1), which becomes the slot that ran.
unfoldable pub account : (start_run i prev : ℕ) → Kernel → Kernel × ℕ
account start_run i prev k =
    (put_slot k i (charge start_run k.ticks (not (prev == i + 1)) (slot k i)), i + 1)
