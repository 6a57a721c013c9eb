-- ===== src/Args/Descriptors.antt =====
-- `fdalloc`, `sys_dup` and `sys_close` of sysfile.c.
use col.Base.{
  Option-cases, Bool-cases, List, arith, ap, inl, inr, none, some, some-injective, refl, sym, suc,
  zero, ℕ, get_or, get_or-set_self, get_or-set_ne, set, length, ==_iff, ==_ne, if◌then◌else◌, ◌+◌,
  ◌<◌, ◌==◌, ◌∙◌, ◌≡◌, ◌≢◌, ◌≤◌, ◌⊎◌,
}
use col.Proc.{Proc, Kernel}
use col.Proc.Table.{slot, put_slot, blank, add_ref}
use col.Args.{nofile, argfd, free_fd, put_fd, fdalloc, sys_dup}
use col.Args.Fetch.{argfd_lem}

free_fd-some :
    (left : ℕ) (files : List ℕ) (fd x : ℕ)
    → free_fd left files fd ≡ some x
    → (fd ≤ x)
      × (x < fd + left)
      × (get_or files x 0 ≡ 0)
      × ((j : ℕ) → fd ≤ j → j < x → get_or files j 0 ≢ 0)
unfolding free_fd
free_fd-some zero files fd x e = cc
free_fd-some (suc left) files fd x e = elim (Bool-cases (get_or files fd 0 == 0)) [
  | inl z ↦
      let q : fd ≡ x = some-injective fd x (rw z at e) in
      (
        omega arith,
        omega arith,
        ap (λ i. get_or files i 0) (sym q) ∙ (==_iff _ _).0 z,
        λ j lo hi. absurd (omega arith),
      )
  | inr nz ↦
      let (lo, hi, free, first) = free_fd-some left files (fd + 1) x (rw nz at e) in
      (
        omega arith,
        omega arith,
        free,
        λ j l h. elim (Bool-cases (j == fd)) [
          | inl s ↦
              let q : j ≡ fd = (==_iff j fd).0 s in
              λ w. cc ((==_iff (get_or files fd 0) 0).1 (ap (λ i. get_or files i 0) (sym q) ∙ w))
          | inr s ↦ first j (ground arith) h
        ],
      )
]

free_fd-none :
    (left : ℕ) (files : List ℕ) (fd : ℕ)
    → free_fd left files fd ≡ none
    → (j : ℕ) → fd ≤ j
    → j < fd + left
    → get_or files j 0 ≢ 0
unfolding free_fd
free_fd-none zero files fd e j lo hi = absurd (omega arith)
free_fd-none (suc left) files fd e j lo hi = elim (Bool-cases (get_or files fd 0 == 0)) [
  | inl z ↦ cc (rw z at e)
  | inr nz ↦ elim (Bool-cases (j == fd)) [
    | inl s ↦
        let q : j ≡ fd = (==_iff j fd).0 s in
        λ w. cc ((==_iff (get_or files fd 0) 0).1 (ap (λ i. get_or files i 0) (sym q) ∙ w))
    | inr s ↦ free_fd-none left files (fd + 1) (rw nz at e) j (ground arith) (omega arith)
  ]
]

-- `fd` is a new descriptor for the file that was open at `old`, the lowest that was free.
pub record Duplicated (k k' : Kernel) (cur old fd : ℕ) : Type 0 where
  pub was_open : (old < nofile) × (get_or (slot k cur).ofile old 0 ≢ 0)
  pub was_free : (fd < nofile) × (get_or (slot k cur).ofile fd 0 ≡ 0)
  pub lowest : (j : ℕ) → j < fd → get_or (slot k cur).ofile j 0 ≢ 0
  pub files :
      (j : ℕ)
      → get_or (slot k' cur).ofile j 0 ≡ get_or (slot k cur).ofile (if j == fd then old else j) 0
  pub others : (i : ℕ) → i ≢ cur → slot k' i ≡ slot k i
  pub refs :
      (f : ℕ)
      → k'.file_refs f ≡ k.file_refs f + (if f == get_or (slot k cur).ofile old 0 then 1 else 0)

module _ (k : Kernel) (cur old fd f : ℕ) (lt : cur < length k.ptable)
    (long : length (slot k cur).ofile ≡ nofile) (fd_lt : fd < nofile)
    (here : get_or (slot k cur).ofile old 0 ≡ f) where
  abbrev pub after : Kernel
  after = record (put_slot k cur (put_fd fd f (slot k cur))) { file_refs = add_ref k.file_refs f }

  new_slot : slot after cur ≡ put_fd fd f (slot k cur)
  new_slot = get_or-set_self k.ptable cur (put_fd fd f (slot k cur)) blank lt

  after-Duplicated :
      old < nofile
      → f ≢ 0
      → get_or (slot k cur).ofile fd 0 ≡ 0
      → ((j : ℕ) → j < fd → get_or (slot k cur).ofile j 0 ≢ 0)
      → Duplicated k after cur old fd
  after-Duplicated old_lt nz free first = record {
    was_open = (old_lt, λ q. nz (sym here ∙ q));
    was_free = (fd_lt, free);
    lowest = first;
    files = λ j. ap (λ (p : Proc). get_or p.ofile j 0) new_slot ∙ elim (Bool-cases (j == fd)) [
      | inl s ↦
          let q : j ≡ fd = (==_iff j fd).0 s in
          rw s (
            ap (λ i. get_or (set (slot k cur).ofile fd f) i 0) q
            ∙ get_or-set_self (slot k cur).ofile fd f 0 (omega (arith, long))
            ∙ sym here)
      | inr s ↦ rw s (get_or-set_ne (slot k cur).ofile fd j f 0 (λ q. cc ((==_iff j fd).1 (sym q))))
    ];
    others =
        λ i ne. get_or-set_ne k.ptable cur i (put_fd fd f (slot k cur)) blank (λ q. ne (sym q));
    refs = λ g. rw (here, ==_ne f 0 nz) (ground arith);
  }

-- `dup` with a descriptor that is open, and one that is free, gives the lowest free one for the same
-- file, whose references it counts. Otherwise it fails and changes nothing.
pub sys_dup-Duplicated :
    (mem : ℕ → ℕ) (cur : ℕ) (k : Kernel)
    → cur < length k.ptable
    → length (slot k cur).ofile ≡ nofile
    → ((old fd : ℕ) × (k' : Kernel) × (sys_dup mem cur k ≡ (k', some fd))
        × Duplicated k k' cur old fd)
      ⊎ ((sys_dup mem cur k ≡ (k, none))
          × ((argfd (slot k cur) mem 0 ≡ none)
              ⊎ ((j : ℕ) → j < nofile → get_or (slot k cur).ofile j 0 ≢ 0)))
unfolding sys_dup fdalloc
sys_dup-Duplicated mem cur k lt long = elim (Option-cases (argfd (slot k cur) mem 0)) [
  | inl bad ↦ inr (rw (sys_dup, bad) refl, inl bad)
  | inr ((old, f), got) ↦ elim (Option-cases (free_fd nofile (slot k cur).ofile 0)) [
    | inl full ↦ inr (
      rw (sys_dup, got, fdalloc, full) refl,
      inr (λ j l. free_fd-none nofile (slot k cur).ofile 0 full j (omega arith) (omega arith)),
    )
    | inr (fd, free) ↦
        let (_, old_lt, here, nz) = argfd_lem (slot k cur) mem 0 old f got in
        let (lo, hi, empty, first) = free_fd-some nofile (slot k cur).ofile 0 fd free in
        inl (
          old,
          fd,
          after k cur old fd f lt long hi here,
          rw (sys_dup, got, fdalloc, free) refl,
          after-Duplicated k cur old fd f lt long hi here old_lt nz empty
              (λ j l. first j (omega arith) l),
        )
  ]
]
