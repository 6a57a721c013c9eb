-- ===== src/Proc/Life/Reuse.antt =====
-- The child that `fork` of proc.c makes, also in a slot that was used before.
use col.Base.{
  get_or-set_self, Option-cases, ap, arith, false, inl, inr, none, refl, some, subst, sym, ℕ, ◌∙◌,
  ◌≡◌,
}
use col.Proc.{runnable, ptr, Proc, Kernel}
use col.Proc.Table.{slot, blank}
use col.Proc.Life.{spawn, fork, inherit, fresh, allocproc}
use col.Proc.Life.Spawn.{spawn-Child}
use col.Proc.Life.Steps.{fork_eq, fork_fails}

-- What a forked child is to look like.
pub record IsChild (k : Kernel) (cur pgdir : ℕ) (p : Proc) : Type 0 where
  pub runs : p.state ≡ runnable
  pub next_pid : p.pid ≡ k.nextpid
  pub parent_cur : p.parent ≡ ptr cur
  pub answer : p.tf.eax ≡ 0
  pub pages : p.pgdir ≡ pgdir
  pub foreground : p.b ≡ false
  pub clocks : (p.rtime ≡ 0) × (p.creation_time ≡ k.ticks) × (p.first_cpu_time ≡ none)

abbrev child_of : (stack pgdir cur : ℕ) → Kernel → ℕ → Proc
child_of stack pgdir cur k i =
    let p : Proc =
      inherit (slot (allocproc stack k).0 cur) cur pgdir
        (record (fresh k (slot k i)) { kstack = stack }) in
    record p { state = runnable; b = false }

fork_child :
    (stack pgdir cur : ℕ) (k : Kernel) (i : ℕ)
    → (fork stack pgdir cur k).1 ≡ some i
    → slot (fork stack pgdir cur k).0 i ≡ child_of stack pgdir cur k i
fork_child stack pgdir cur k i e = elim (Option-cases (spawn stack pgdir cur k).1) [
  | inl f ↦ cc (ap (λ r. r.1) (fork_fails stack pgdir cur k f))
  | inr (j, f) ↦
      let q = fork_eq stack pgdir cur k j f in
      let c = spawn-Child stack pgdir cur k j f in
      let k1 : Kernel = (spawn stack pgdir cur k).0 in
      let same : some j ≡ some i = sym (ap (λ r. r.1) q) ∙ e in
      let ji : j ≡ i = ground arith in
      subst (λ m. slot (fork stack pgdir cur k).0 m ≡ child_of stack pgdir cur k m) ji
        (ap (λ r. slot r.0 j) q
          ∙ get_or-set_self k1.ptable j (record (slot k1 j) { state = runnable; b = false }) blank
              c.in_table
          ∙ ap (λ (p : Proc). record p { state = runnable; b = false }) c.made)
]

-- The child of a `fork` that succeeds is runnable in the foreground, under the pid that was next,
-- with the caller for its parent, the copied page table, 0 for the answer of the call, and its
-- clocks reset.
pub fork-IsChild :
    (stack pgdir cur : ℕ) (k : Kernel) (i : ℕ)
    → (fork stack pgdir cur k).1 ≡ some i
    → IsChild k cur pgdir (slot (fork stack pgdir cur k).0 i)
fork-IsChild stack pgdir cur k i e =
    subst (IsChild k cur pgdir) (sym (fork_child stack pgdir cur k i e)) (record {
      runs = refl;
      next_pid = refl;
      parent_cur = refl;
      answer = refl;
      pages = refl;
      foreground = refl;
      clocks = (refl, refl, refl);
    })

-- The child of a `fork` that succeeds has the time limit, the waiting time and the kill mark that
-- its slot had before the call: nothing resets them.
pub fork_takes_over :
    (stack pgdir cur : ℕ) (k : Kernel) (i : ℕ)
    → (fork stack pgdir cur k).1 ≡ some i
    → let p = slot (fork stack pgdir cur k).0 i in
      (p.exec_time ≡ (slot k i).exec_time)
      × (p.waiting_time ≡ (slot k i).waiting_time)
      × (p.killed ≡ (slot k i).killed)
fork_takes_over stack pgdir cur k i e =
    subst
      (λ p.
        (p.exec_time ≡ (slot k i).exec_time)
        × (p.waiting_time ≡ (slot k i).waiting_time)
        × (p.killed ≡ (slot k i).killed))
      (sym (fork_child stack pgdir cur k i e)) (refl, refl, refl)
