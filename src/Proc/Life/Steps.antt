-- ===== src/Proc/Life/Steps.antt =====
-- The process table of proc.c as a state machine, and its process ids.
use col.Proc.Life.ExitPids.{exit-PidsOk}
use col.Base.{
  ◌||◌, not, Bool-cases, Bool, Option, Option-cases, false, inl, inr, none, refl, some, subst, sym,
  ℕ, ℤ, ◌≡◌,
}
use col.Proc.{runnable, Proc, Kernel}
use col.Proc.Table.{slot, put_slot}
use col.Proc.Wake.{sleep, awake, wakeup, kill, yield, scheduler_start}
use col.Proc.Life.{wait_scan, exit, wait, Metrics, spawn, fork, customize, custom_fork}
use col.Proc.Life.Pids.{
  start_all-Sub, kill_scan-Sub, wait_scan-Sub, wakeup1-Sub, IsLive, PidsOk, Sub-set, Sub-PidsOk,
}
use col.Proc.Life.Spawn.{Child, spawn-PidsOk, spawn-Child}

pub fork_eq :
    (stack pgdir cur : ℕ) (k : Kernel) (i : ℕ)
    → (spawn stack pgdir cur k).1 ≡ some i
    → fork stack pgdir cur k ≡ (
      let k1 = (spawn stack pgdir cur k).0 in
          put_slot k1 i (record (slot k1 i) { state = runnable; b = false }),
      some i,
    )
unfolding fork
fork_eq stack pgdir cur k i e = rw (e, fork)

pub fork_fails :
    (stack pgdir cur : ℕ) (k : Kernel)
    → (spawn stack pgdir cur k).1 ≡ none
    → fork stack pgdir cur k ≡ ((spawn stack pgdir cur k).0, none)
unfolding fork
fork_fails stack pgdir cur k e = rw (e, fork)

custom_fork_eq :
    (later : Bool) (time : ℤ) (stack pgdir cur : ℕ) (k : Kernel) (i : ℕ)
    → (spawn stack pgdir cur k).1 ≡ some i
    → custom_fork later time stack pgdir cur k ≡ (
      let k1 = (spawn stack pgdir cur k).0 in put_slot k1 i (customize later time (slot k1 i)),
      some i,
    )
unfolding custom_fork
custom_fork_eq later time stack pgdir cur k i e = rw (e, custom_fork)

custom_fork_fails :
    (later : Bool) (time : ℤ) (stack pgdir cur : ℕ) (k : Kernel)
    → (spawn stack pgdir cur k).1 ≡ none
    → custom_fork later time stack pgdir cur k ≡ ((spawn stack pgdir cur k).0, none)
unfolding custom_fork
custom_fork_fails later time stack pgdir cur k e = rw (e, custom_fork)

-- The slot of a spawned child is live.
Child-IsLive :
    (stack pgdir cur : ℕ) (k : Kernel) (r : Kernel × Option ℕ) (i : ℕ)
    → Child stack pgdir cur k r i
    → IsLive (slot r.0 i)
Child-IsLive stack pgdir cur k r i c = subst IsLive (sym c.made) refl

-- A change of a live slot that keeps its pid.
put_slot-PidsOk :
    (k : Kernel) (i : ℕ) (p : Proc)
    → PidsOk k
    → IsLive (slot k i)
    → p.pid ≡ (slot k i).pid
    → PidsOk (put_slot k i p)
put_slot-PidsOk k i p v live e =
    Sub-PidsOk k (put_slot k i p) v (Sub-set k.ptable i p (λ h. (live, e))) refl

fork-PidsOk : (stack pgdir cur : ℕ) (k : Kernel) → PidsOk k → PidsOk (fork stack pgdir cur k).0
fork-PidsOk stack pgdir cur k v = elim (Option-cases (spawn stack pgdir cur k).1) [
  | inl e ↦
      subst (λ r. PidsOk r.0) (sym (fork_fails stack pgdir cur k e))
        (spawn-PidsOk stack pgdir cur k v)
  | inr (i, e) ↦
      subst (λ r. PidsOk r.0) (sym (fork_eq stack pgdir cur k i e))
        (put_slot-PidsOk _ i _ (spawn-PidsOk stack pgdir cur k v)
          (Child-IsLive stack pgdir cur k (spawn stack pgdir cur k) i
            (spawn-Child stack pgdir cur k i e))
          refl)
]

custom_fork-PidsOk :
    (later : Bool) (time : ℤ) (stack pgdir cur : ℕ) (k : Kernel)
    → PidsOk k
    → PidsOk (custom_fork later time stack pgdir cur k).0
custom_fork-PidsOk later time stack pgdir cur k v =
    elim (Option-cases (spawn stack pgdir cur k).1) [
      | inl e ↦
          subst (λ r. PidsOk r.0) (sym (custom_fork_fails later time stack pgdir cur k e))
            (spawn-PidsOk stack pgdir cur k v)
      | inr (i, e) ↦
          subst (λ r. PidsOk r.0) (sym (custom_fork_eq later time stack pgdir cur k i e))
            (put_slot-PidsOk _ i _ (spawn-PidsOk stack pgdir cur k v)
              (Child-IsLive stack pgdir cur k (spawn stack pgdir cur k) i
                (spawn-Child stack pgdir cur k i e))
              refl)
    ]

wait-PidsOk : (cur : ℕ) (k : Kernel) → PidsOk k → IsLive (slot k cur) → PidsOk (wait cur k).0
unfolding wait
wait-PidsOk cur k v live =
    let scanned = wait_scan-Sub cur (slot k cur).pid false k.ptable in
    elim (Option-cases (wait_scan cur (slot k cur).pid false k.ptable).1) [
      | inr (w, e) ↦ rw (e, wait) (Sub-PidsOk k _ v scanned refl)
      | inl e ↦
          elim (Bool-cases
            (not (wait_scan cur (slot k cur).pid false k.ptable).2 || (slot k cur).killed)) [
              | inl c ↦ rw (e, c, wait) v
              | inr c ↦ rw (e, c, wait) (put_slot-PidsOk k cur _ v live refl)
            ]
    ]

-- One operation on the process table. The running process is in a live slot.
pub data Step (k : Kernel) : Kernel → Type 0 where
  forks : (stack pgdir cur : ℕ) → Step k (fork stack pgdir cur k).0
  custom_forks :
      (later : Bool) (time : ℤ) (stack pgdir cur : ℕ)
      → Step k (custom_fork later time stack pgdir cur k).0
  exits :
      (cur : ℕ) {k' : Kernel} {m : Metrics}
      → IsLive (slot k cur)
      → exit cur k ≡ some (k', m)
      → Step k k'
  waits : (cur : ℕ) → IsLive (slot k cur) → Step k (wait cur k).0
  sleeps : (cur chan : ℕ) → IsLive (slot k cur) → Step k (sleep cur chan k)
  awakes : (cur : ℕ) → IsLive (slot k cur) → Step k (awake cur k)
  wakes : (chan : ℕ) → Step k (wakeup chan k)
  kills : (pid : ℕ) → Step k (kill pid k).0
  yields : (cur : ℕ) → IsLive (slot k cur) → Step k (yield cur k)
  starts : Step k (scheduler_start k)

pub data Reach (k : Kernel) : Kernel → Type 0 where
  here : Reach k k
  next : {k' k'' : Kernel} → Reach k k' → Step k' k'' → Reach k k''

Step-PidsOk : {k k' : Kernel} → Step k k' → PidsOk k → PidsOk k'
unfolding sleep awake wakeup kill yield scheduler_start
Step-PidsOk {k} (forks stack pgdir cur) v = fork-PidsOk stack pgdir cur k v
Step-PidsOk {k} (custom_forks later time stack pgdir cur) v =
    custom_fork-PidsOk later time stack pgdir cur k v
Step-PidsOk {k} {k'} (exits cur {m = m} live e) v = exit-PidsOk cur k k' m v live e
Step-PidsOk {k} (waits cur live) v = wait-PidsOk cur k v live
Step-PidsOk {k} (sleeps cur chan live) v = put_slot-PidsOk k cur _ v live refl
Step-PidsOk {k} (awakes cur live) v = put_slot-PidsOk k cur _ v live refl
Step-PidsOk {k} (wakes chan) v = Sub-PidsOk k _ v (wakeup1-Sub chan k.ptable) refl
Step-PidsOk {k} (kills pid) v = Sub-PidsOk k _ v (kill_scan-Sub pid k.ptable) refl
Step-PidsOk {k} (yields cur live) v = put_slot-PidsOk k cur _ v live refl
Step-PidsOk {k} starts v = Sub-PidsOk k _ v (start_all-Sub k.ptable) refl

-- From a table where it holds, through whatever sequence of operations, two live processes never
-- have the same id, and the id of every live process is below `nextpid`.
pub Reach-PidsOk : {k k' : Kernel} → PidsOk k → Reach k k' → PidsOk k'
Reach-PidsOk v here = v
Reach-PidsOk v (next r s) = Step-PidsOk s (Reach-PidsOk v r)
