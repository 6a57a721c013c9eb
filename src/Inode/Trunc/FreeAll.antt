-- ===== src/Inode/Trunc/FreeAll.antt =====
-- The two loops of `itrunc` in fs.c.
use col.Base.{
  ap, ==_iff, ==_ne, Bool-cases, arith, inl, inr, none, Option-cases, refl, some, Option, subst,
  sym, true, if◌then◌else◌, zero, suc, ℕ, ◌+◌, ◌<◌, ◌≤◌, ◌==◌, ◌∙◌, ◌≡◌, ◌≢◌,
}
use col.Disk.{Disk, bit, bfree}
use col.Disk.Bits.{IsBytes}
use col.Disk.Blocks.{Freed, bfree-Freed, bfree_used}
use col.Inode.{word_at}
use col.Inode.Trunc.{free_entries}

-- The loop over any blocks: `bfree` of each of `B at` and its `count - 1` successors that is not 0.
unfoldable pub free_all : (count at : ℕ) → (ℕ → ℕ) → Disk → Option Disk
free_all zero at B d = some d
free_all (suc count) at B d =
    if B at == 0
    then free_all count (at + 1) B d
    else elim (bfree (B at) d) [ none ↦ none | some d' ↦ free_all count (at + 1) B d' ]

pub free_entries_lem :
    (count at : ℕ) (a : ℕ → ℕ) (d : Disk)
    → free_entries count at a d ≡ free_all count at (word_at a) d
unfolding free_entries free_all
free_entries_lem zero at a d = refl
free_entries_lem (suc count) at a d = elim (Bool-cases (word_at a at == 0)) [
  | inl z ↦ rw z (free_entries_lem count (at + 1) a d)
  | inr nz ↦ elim (Option-cases (bfree (word_at a at) d)) [
    | inl e ↦ rw (nz, e) refl
    | inr (d', e) ↦ rw (nz, e) (free_entries_lem count (at + 1) a d')
  ]
]

-- What freeing does to the disk.
pub record FreedAll (d d' : Disk) (B : ℕ → ℕ) (at count : ℕ) : Type 0 where
  pub gone : (j : ℕ) → at ≤ j → j < at + count → B j ≢ 0 → bit d' (B j) ≡ 0
  pub kept : (y : ℕ) → ((j : ℕ) → at ≤ j → j < at + count → B j ≢ 0 → B j ≢ y) → bit d' y ≡ bit d y
  pub same_bytes : (y i : ℕ) → d'.bytes y i ≡ d.bytes y i
  pub is_bytes : IsBytes d'
  pub size_eq : d'.size ≡ d.size

-- Blocks in use, no two the same.
pub record AreUsed (d : Disk) (B : ℕ → ℕ) (at count : ℕ) : Type 0 where
  pub used : (j : ℕ) → at ≤ j → j < at + count → B j ≢ 0 → bit d (B j) ≢ 0
  pub distinct :
      (i j : ℕ) → at ≤ i → i < at + count → at ≤ j → j < at + count → B i ≢ 0 → B i ≡ B j → i ≡ j

FreedAll-skip :
    (d d' : Disk) (B : ℕ → ℕ) (at count : ℕ)
    → B at ≡ 0
    → FreedAll d d' B (at + 1) count
    → FreedAll d d' B at (suc count)
FreedAll-skip d d' B at count z r = record {
  gone = λ j lo hi ne. elim (Bool-cases (j == at)) [
    | inl e ↦ ground (arith, ap B ((==_iff j at).0 e))
    | inr e ↦ r.gone j (ground arith) (omega arith) ne
  ];
  kept = λ y h. r.kept y (λ j lo hi ne. h j (omega arith) (omega arith) ne);
  same_bytes = r.same_bytes;
  is_bytes = r.is_bytes;
  size_eq = r.size_eq;
}

FreedAll-cons :
    (d d1 d' : Disk) (B : ℕ → ℕ) (at count : ℕ)
    → B at ≢ 0
    → AreUsed d B at (suc count)
    → Freed d d1 (B at)
    → FreedAll d1 d' B (at + 1) count
    → FreedAll d d' B at (suc count)
FreedAll-cons d d1 d' B at count ne u f r = record {
  gone = λ j lo hi nj. elim (Bool-cases (j == at)) [
    | inl e ↦
        let same : j ≡ at = (==_iff j at).0 e in
        let self : (B at == B at) ≡ true = (==_iff _ _).1 refl in
        subst (λ i. bit d' (B i) ≡ 0) (sym same)
          (r.kept (B at) (λ i l h ni q.
              let i_at =
                u.distinct i at (omega arith) (omega arith) (omega arith) (omega arith) ni q in
              omega arith)
            ∙ f.cleared (B at)
            ∙ rw self refl)
    | inr e ↦ r.gone j (ground arith) (omega arith) nj
  ];
  kept = λ y h.
      r.kept y (λ j lo hi nj. h j (omega arith) (omega arith) nj)
      ∙ f.cleared y
      ∙ rw (==_ne y (B at) (λ e. h at (omega arith) (omega arith) ne (sym e))) refl;
  same_bytes = λ y i. r.same_bytes y i ∙ f.kept y i;
  is_bytes = r.is_bytes;
  size_eq = r.size_eq ∙ f.size_eq;
}

-- The blocks that are left are still in use.
AreUsed-tail :
    (d d1 : Disk) (B : ℕ → ℕ) (at count : ℕ)
    → B at ≢ 0
    → AreUsed d B at (suc count)
    → Freed d d1 (B at)
    → AreUsed d1 B (at + 1) count
AreUsed-tail d d1 B at count ne u f = record {
  used = λ j lo hi nj z.
      let apart : B j ≢ B at = λ q.
        (let e = u.distinct j at (omega arith) (omega arith) (omega arith) (omega arith) nj q in
          omega arith) in
      let c : bit d1 (B j) ≡ bit d (B j) = f.cleared (B j) ∙ rw (==_ne (B j) (B at) apart) refl in
      u.used j (omega arith) (omega arith) nj (sym c ∙ z);
  distinct = λ i j a b c e. u.distinct i j (omega arith) (omega arith) (omega arith) (omega arith);
}

AreUsed-skip :
    (d : Disk) (B : ℕ → ℕ) (at count : ℕ) → AreUsed d B at (suc count) → AreUsed d B (at + 1) count
AreUsed-skip d B at count u = record {
  used = λ j lo hi. u.used j (omega arith) (omega arith);
  distinct = λ i j a b c e. u.distinct i j (omega arith) (omega arith) (omega arith) (omega arith);
}

-- Freeing blocks that are in use does not panic, and frees them.
pub free_all-FreedAll :
    (count at : ℕ) (B : ℕ → ℕ) (d : Disk)
    → IsBytes d
    → AreUsed d B at count
    → (d' : Disk) × (free_all count at B d ≡ some d') × FreedAll d d' B at count
unfolding free_all
free_all-FreedAll zero at B d v u = (
  d,
  refl,
  record {
    gone = λ j lo hi ne. absurd (omega arith);
    kept = λ y h. refl;
    same_bytes = λ y i. refl;
    is_bytes = v;
    size_eq = refl;
  },
)
free_all-FreedAll (suc count) at B d v u = elim (Bool-cases (B at == 0)) [
  | inl z ↦
      let (d', e, r) = free_all-FreedAll count (at + 1) B d v (AreUsed-skip d B at count u) in
      (d', rw z e, FreedAll-skip d d' B at count ((==_iff _ _).0 z) r)
  | inr nz ↦
      let ne : B at ≢ 0 = λ q. cc ((==_iff _ _).1 q) in
      let (d1, got) = bfree_used (B at) d (u.used at (omega arith) (omega arith) ne) in
      let f = bfree-Freed (B at) d d1 v got in
      let (d', e, r) =
        free_all-FreedAll count (at + 1) B d1 f.is_bytes (AreUsed-tail d d1 B at count ne u f) in
      (d', rw (nz, got) e, FreedAll-cons d d1 d' B at count ne u f r)
]
