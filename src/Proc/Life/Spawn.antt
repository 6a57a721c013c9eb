-- ===== src/Proc/Life/Spawn.antt =====
-- What the common part of `fork` and `custom_fork` does.
use col.Base.{
  Bool-cases, Option, Option-cases, ap, arith, get_or-set_self, inl, inr, length, length-set, none,
  refl, some, subst, true, ℕ, ◌<◌, ◌==◌, ◌∙◌, ◌≡◌,
}
use col.Proc.{unused, is_state, Kernel}
use col.Proc.Table.{slot, blank}
use col.Proc.Life.{fresh, allocproc, inherit, adopt, give_up, spawn}
use col.Proc.Life.Pids.{PidsOk, Sub-set, Sub-PidsOk}
use col.Proc.Life.Alloc.{Allocated, allocproc-Allocated, allocproc-PidsOk}

-- The three ways in which `spawn` ends.
pub data SpawnCases (stack pgdir cur : ℕ) (k : Kernel) : Kernel × Option ℕ → Type 0 where
  no_slot : SpawnCases stack pgdir cur k ((allocproc stack k).0, none)
  no_pages :
      (i : ℕ)
      → (allocproc stack k).1 ≡ some i
      → SpawnCases stack pgdir cur k (give_up i (allocproc stack k).0, none)
  child :
      (i : ℕ)
      → (allocproc stack k).1 ≡ some i
      → SpawnCases stack pgdir cur k (adopt pgdir cur i (allocproc stack k).0, some i)

pub spawn-SpawnCases :
    (stack pgdir cur : ℕ) (k : Kernel) → SpawnCases stack pgdir cur k (spawn stack pgdir cur k)
unfolding spawn
spawn-SpawnCases stack pgdir cur k = elim (Option-cases (allocproc stack k).1) [
  | inl failed ↦ rw (failed, spawn) no_slot
  | inr (j, got) ↦ elim (Bool-cases (pgdir == 0)) [
    | inl z ↦ rw (got, z, spawn) (no_pages j got)
    | inr z ↦ rw (got, z, spawn) (child j got)
  ]
]

-- A slot after `allocproc`.
pub slot-Allocated :
    (stack : ℕ) (k k1 : Kernel) (i : ℕ)
    → Allocated stack k k1 i
    → slot k1 i ≡ record (fresh k (slot k i)) { kstack = stack }
slot-Allocated stack k k1 i a =
    ap (λ x. slot x i) a.made
    ∙ get_or-set_self k.ptable i (record (fresh k (slot k i)) { kstack = stack }) blank a.in_table

adopt-slot :
    (pgdir cur i : ℕ) (k : Kernel)
    → i < length k.ptable
    → slot (adopt pgdir cur i k) i ≡ inherit (slot k cur) cur pgdir (slot k i)
unfolding adopt
adopt-slot pgdir cur i k lt =
    get_or-set_self k.ptable i (inherit (slot k cur) cur pgdir (slot k i)) blank lt

adopt-PidsOk : (pgdir cur i : ℕ) (k : Kernel) → PidsOk k → PidsOk (adopt pgdir cur i k)
unfolding adopt
adopt-PidsOk pgdir cur i k v = Sub-PidsOk k _ v (Sub-set k.ptable i _ (λ h. (h, refl))) refl

give_up-PidsOk : (i : ℕ) (k : Kernel) → PidsOk k → PidsOk (give_up i k)
unfolding give_up
give_up-PidsOk i k v = Sub-PidsOk k _ v (Sub-set k.ptable i _ (λ h. cc)) refl

length-Allocated :
    (stack : ℕ) (k k1 : Kernel) (i : ℕ)
    → Allocated stack k k1 i
    → length k1.ptable ≡ length k.ptable
length-Allocated stack k k1 i a = ap (λ x. length x.ptable) a.made ∙ length-set k.ptable i _

-- The child of a successful `spawn`: it is in the table, embryonic, under the next pid.
pub record Child (stack pgdir cur : ℕ) (k : Kernel) (r : Kernel × Option ℕ) (i : ℕ) : Type 0 where
  pub in_table : i < length r.0.ptable
  pub was_unused : is_state (slot k i).state unused ≡ true
  pub made :
      slot r.0 i
      ≡ inherit
          (slot (allocproc stack k).0 cur)
          cur
          pgdir
          (record (fresh k (slot k i)) { kstack = stack })

child_lem :
    (stack pgdir cur : ℕ) (k : Kernel) (i : ℕ)
    → (allocproc stack k).1 ≡ some i
    → Child stack pgdir cur k (adopt pgdir cur i (allocproc stack k).0, some i) i
unfolding adopt
child_lem stack pgdir cur k i got =
    let a = allocproc-Allocated stack k i got in
    let k1 = (allocproc stack k).0 in
    let long : length k1.ptable ≡ length k.ptable = length-Allocated stack k k1 i a in
    let small = a.in_table in
    record {
      in_table =
          omega (arith, length-set k1.ptable i (inherit (slot k1 cur) cur pgdir (slot k1 i)));
      was_unused = a.was_unused;
      made =
          adopt-slot pgdir cur i k1 (omega arith)
          ∙ ap (inherit (slot k1 cur) cur pgdir) (slot-Allocated stack k k1 i a);
    }

pub Child-of :
    (stack pgdir cur : ℕ) (k : Kernel) (r : Kernel × Option ℕ) (i : ℕ)
    → SpawnCases stack pgdir cur k r
    → r.1 ≡ some i
    → Child stack pgdir cur k r i
Child-of stack pgdir cur k r i no_slot e = cc
Child-of stack pgdir cur k r i (no_pages j got) e = cc
Child-of stack pgdir cur k r i (child j got) e =
    let same : j ≡ i = ground arith in
    subst (Child stack pgdir cur k (adopt pgdir cur j (allocproc stack k).0, some j)) same
      (child_lem stack pgdir cur k j got)

SpawnCases-PidsOk :
    (stack pgdir cur : ℕ) (k : Kernel) (r : Kernel × Option ℕ)
    → SpawnCases stack pgdir cur k r
    → PidsOk k
    → PidsOk r.0
SpawnCases-PidsOk stack pgdir cur k r no_slot v = allocproc-PidsOk stack k v
SpawnCases-PidsOk stack pgdir cur k r (no_pages j got) v =
    give_up-PidsOk j _ (allocproc-PidsOk stack k v)
SpawnCases-PidsOk stack pgdir cur k r (child j got) v =
    adopt-PidsOk pgdir cur j _ (allocproc-PidsOk stack k v)

pub spawn-PidsOk :
    (stack pgdir cur : ℕ) (k : Kernel) → PidsOk k → PidsOk (spawn stack pgdir cur k).0
spawn-PidsOk stack pgdir cur k v =
    SpawnCases-PidsOk stack pgdir cur k _ (spawn-SpawnCases stack pgdir cur k) v

pub spawn-Child :
    (stack pgdir cur : ℕ) (k : Kernel) (i : ℕ)
    → (spawn stack pgdir cur k).1 ≡ some i
    → Child stack pgdir cur k (spawn stack pgdir cur k) i
spawn-Child stack pgdir cur k i e =
    Child-of stack pgdir cur k _ i (spawn-SpawnCases stack pgdir cur k) e
