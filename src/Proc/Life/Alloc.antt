-- ===== src/Proc/Life/Alloc.antt =====
-- What `allocproc` and the common part of the forks give.
use col.Base.{
  if◌then◌else◌, ◌∙◌, sym, ap, none, subst, ◌==◌, Bool-cases, List, Option-cases, [], arith, get_or,
  inl, inr, length, some, suc, true, ℕ, ◌+◌, ◌<◌, ◌∷◌, ◌≡◌,
}
use col.Proc.{unused, is_state, Proc, Kernel}
use col.Proc.Table.{slot, put_slot, blank}
use col.Proc.Life.{find_unused, fresh, with_stack, allocproc}
use col.Proc.Life.Pids.{PidsOk, PidsOk-fresh}

find_unused-some :
    (ps : List Proc) (j i : ℕ)
    → find_unused ps j ≡ some i
    → (m : ℕ) × (i ≡ j + m) × (m < length ps) × (is_state (get_or ps m blank).state unused ≡ true)
unfolding find_unused
find_unused-some [] j i e = cc
find_unused-some (p ∷ ps) j i e = elim (Bool-cases (is_state p.state unused)) [
  | inl u ↦ (0, ground arith, ground arith, u)
  | inr u ↦
      let (m, at, lt, free) = find_unused-some ps (j + 1) i (rw u at e) in
      (suc m, omega arith, omega arith, free)
]

allocproc_full :
    (stack : ℕ) (k : Kernel) → find_unused k.ptable 0 ≡ none → allocproc stack k ≡ (k, none)
unfolding allocproc
allocproc_full stack k e = rw (e, allocproc)

allocproc_found :
    (stack : ℕ) (k : Kernel) (i : ℕ)
    → find_unused k.ptable 0 ≡ some i
    → allocproc stack k ≡ (
      put_slot (record k { nextpid = k.nextpid + 1 }) i (with_stack stack (fresh k (slot k i))),
      if stack == 0 then none else some i,
    )
unfolding allocproc
allocproc_found stack k i e = rw (e, allocproc)

-- The slot that a successful `allocproc` returns was unused, and alone has changed.
pub record Allocated (stack : ℕ) (k k1 : Kernel) (i : ℕ) : Type 0 where
  pub in_table : i < length k.ptable
  pub was_unused : is_state (slot k i).state unused ≡ true
  pub made :
      k1
      ≡ put_slot
          (record k { nextpid = k.nextpid + 1 })
          i
          (record (fresh k (slot k i)) { kstack = stack })

pub allocproc-Allocated :
    (stack : ℕ) (k : Kernel) (i : ℕ)
    → (allocproc stack k).1 ≡ some i
    → Allocated stack k (allocproc stack k).0 i
allocproc-Allocated stack k i e = elim (Option-cases (find_unused k.ptable 0)) [
  | inl full ↦ cc (ap (λ r. r.1) (allocproc_full stack k full))
  | inr (j, found) ↦
      let r = allocproc_found stack k j found in
      elim (Bool-cases (stack == 0)) [
        | inl z ↦ cc (ap (λ r. r.1) (rw z at r))
        | inr z ↦
            let r' = rw z at r in
            let same : some j ≡ some i = sym (ap (λ r. r.1) r') ∙ e in
            let ji : j ≡ i = ground arith in
            subst (λ m. Allocated stack k (allocproc stack k).0 m) ji
              (let (m, at, lt, free) = find_unused-some k.ptable 0 j found in
                let jm : m ≡ j = omega arith in
                record {
                  in_table = omega arith;
                  was_unused = subst (λ x. is_state (slot k x).state unused ≡ true) jm free;
                  made = ap (λ r. r.0) r';
                })
      ]
]

-- `allocproc` keeps process ids in order, also where it fails after it took a slot.
pub allocproc-PidsOk : (stack : ℕ) (k : Kernel) → PidsOk k → PidsOk (allocproc stack k).0
allocproc-PidsOk stack k v = elim (Option-cases (find_unused k.ptable 0)) [
  | inl full ↦ subst (λ r. PidsOk r.0) (sym (allocproc_full stack k full)) v
  | inr (j, found) ↦
      subst (λ r. PidsOk r.0) (sym (allocproc_found stack k j found))
        (PidsOk-fresh k j (with_stack stack (fresh k (slot k j))) v (ground arith))
]
