-- ===== src/Proc/Wake.antt =====
-- `sleep`, `wakeup1`, `kill`, `yield` and `sys_scheduler_start` of xv6-public_2/proc.c.
use col.Base.{Bool, List, [], false, if◌then◌else◌, true, ℕ, ◌&&◌, ◌==◌, ◌∷◌}
use col.Proc.{sleeping, runnable, custom_wait, is_state, Proc, Kernel}
use col.Proc.Table.{slot, put_slot}

abbrev pub wake_one : ℕ → Proc → Proc
wake_one chan p =
    if is_state p.state sleeping && p.chan == chan then record p { state = runnable } else p

unfoldable pub wakeup1 : ℕ → List Proc → List Proc
wakeup1 chan [] = []
wakeup1 chan (p ∷ ps) = wake_one chan p ∷ wakeup1 chan ps

-- Up to the call of `sched`; `awake` is what follows when the process runs again.
unfoldable pub sleep : ℕ → ℕ → Kernel → Kernel
sleep cur chan k = put_slot k cur (record (slot k cur) { chan = chan; state = sleeping })

unfoldable pub awake : ℕ → Kernel → Kernel
awake cur k = put_slot k cur (record (slot k cur) { chan = 0 })

unfoldable pub wakeup : ℕ → Kernel → Kernel
wakeup chan k = record k { ptable = wakeup1 chan k.ptable }

abbrev pub kill_one : Proc → Proc
kill_one p = record p {
  killed = true;
  state = if is_state p.state sleeping then runnable else p.state;
}

-- The first slot with this pid; the answer is 0 if there is one, and -1 (`false`) otherwise.
unfoldable pub kill_scan : ℕ → List Proc → List Proc × Bool
kill_scan pid [] = ([], false)
kill_scan pid (p ∷ ps) =
    let rest = kill_scan pid ps in
    if p.pid == pid then (kill_one p ∷ ps, true) else (p ∷ rest.0, rest.1)

unfoldable pub kill : ℕ → Kernel → Kernel × Bool
kill pid k = let (ps, found) = kill_scan pid k.ptable in (record k { ptable = ps }, found)

unfoldable pub yield : ℕ → Kernel → Kernel
yield cur k = put_slot k cur (record (slot k cur) { state = runnable })

unfoldable pub start_all : List Proc → List Proc
start_all [] = []
start_all (p ∷ ps) =
    (if is_state p.state custom_wait then record p { state = runnable } else p) ∷ start_all ps

unfoldable pub scheduler_start : Kernel → Kernel
scheduler_start k = record k { ptable = start_all k.ptable }
