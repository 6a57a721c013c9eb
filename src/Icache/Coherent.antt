-- ===== src/Icache/Coherent.antt =====
-- What the calls of the inode cache keep.
use col.Base.{
  ap₂, arith, false, none, suc, true, zero, ℕ, ◌&&◌, ◌+◌, ◌-◌, ◌==◌, ◌≡◌, ◌≢◌, ◌<◌, inl, inr, refl,
  sym, ap, subst, Bool-cases, ◌∙◌, ==_iff, ==_ne, both_true,
}
use col.Icache.{
  free_inode, emptied, drop_ref, Inode, Cache, Dinode, Place, cached, recycled, no_inodes, take,
  iget, idup, ilock, iupdate, iput, ninode, put_dinode, put_inode, ialloc_from, ialloc, fresh, Step,
  gets, dups, locks, updates, puts, allocs, Reach, start, later, recycle,
}
use col.Icache.Lookup.{IsPlace, scan-IsPlace}
use col.Icache.Entries.{IsCoherent, Changed, Changed-IsCoherent, put_inode-Changed, IfSome}

module _ {s : Cache} (inv : IsCoherent s) where
  -- The fields of an inode in use are written to the disk.
  other_key :
      (i j : ℕ)
      → j ≢ i
      → 0 < (s.inode i).ref
      → 0 < (s.inode j).ref
      → ((s.inode j).dev == (s.inode i).dev && (s.inode j).inum == (s.inode i).inum) ≡ false
  other_key i j ne p q =
      elim (Bool-cases
        ((s.inode j).dev == (s.inode i).dev && (s.inode j).inum == (s.inode i).inum)) [
          | inl e ↦
              let (x, y) =
                both_true ((s.inode j).dev == (s.inode i).dev)
                  ((s.inode j).inum == (s.inode i).inum) e in
              absurd (ne (inv.unique j i q p ((==_iff _ _).0 x) ((==_iff _ _).0 y)))
          | inr e ↦ e
        ]

  -- The entry `i` gets another count of references, 1 at least only if it had.
  count-IsCoherent :
      (i n : ℕ)
      → (0 < n → 0 < (s.inode i).ref)
      → IsCoherent (put_inode i (record (s.inode i) { ref = n }) s)
  count-IsCoherent i n h =
      Changed-IsCoherent (put_inode-Changed s i (record (s.inode i) { ref = n })) inv
        (λ p. inv.inside i (h p)) (λ p j ne q x y. ne (inv.unique j i q (h p) x y))
        (λ p v. inv.agrees i (h p) v)

  pub ilock_safe : (i : ℕ) → IfSome IsCoherent (ilock i s)
  unfolding ilock
  ilock_safe i = elim (Bool-cases ((s.inode i).ref == 0)) [
    | inl e ↦ rw e tt
    | inr used ↦ elim (Bool-cases (s.inode i).valid) [
      | inl v ↦ rw (used, v) inv
      | inr v ↦ elim (Bool-cases ((s.disk (s.inode i).dev (s.inode i).inum).inode_type == 0)) [
        | inl e ↦ rw (used, v, e) tt
        | inr live ↦
            let p : 0 < (s.inode i).ref = ground arith in
            rw (used, v, live)
              (Changed-IsCoherent (put_inode-Changed s i _) inv (λ q. inv.inside i p)
                (λ q j ne r x y. ne (inv.unique j i r p x y)) (λ q w. (refl, ground arith)))
      ]
    ]
  ]

  take_safe :
      (dev inum : ℕ) (p : Place)
      → IsPlace s.inode 0 ninode dev inum p
      → IfSome (λ r. IsCoherent r.0) (take dev inum s p)
  take_safe dev inum no_inodes h = tt
  take_safe dev inum (cached j) (lt, hit) =
      let p : 0 < (s.inode j).ref = ground arith in
      count-IsCoherent j ((s.inode j).ref + 1) (λ q. p)
  take_safe dev inum (recycled j) (lt, free, none_has) =
      Changed-IsCoherent (put_inode-Changed s j (recycle dev inum (s.inode j))) inv (λ q. lt)
        (λ q k ne r x y. ground (arith, none_has k (omega arith) (inv.inside k r))) (λ q v. cc v)

  pub iget_safe : (dev inum : ℕ) → IfSome (λ r. IsCoherent r.0) (iget dev inum s)
  unfolding iget
  iget_safe dev inum =
      take_safe dev inum _ (scan-IsPlace ninode 0 ninode dev inum s.inode none (omega arith) tt)

  -- A write to the disk of an inode that no entry has read.
  unread-IsCoherent :
      (dev inum : ℕ) (d : Dinode)
      → (s.disk dev inum).inode_type ≡ 0
      → IsCoherent (put_dinode dev inum d s)
  unread-IsCoherent dev inum d free = record {
    inside = inv.inside;
    unique = inv.unique;
    agrees = λ i p v.
        let (same, live) = inv.agrees i p v in
        elim (Bool-cases ((s.inode i).dev == dev && (s.inode i).inum == inum)) [
          | inl e ↦
              let (x, y) = both_true ((s.inode i).dev == dev) ((s.inode i).inum == inum) e in
              let q : s.disk (s.inode i).dev (s.inode i).inum ≡ s.disk dev inum =
                ap₂ s.disk ((==_iff (s.inode i).dev dev).0 x)
                  ((==_iff (s.inode i).inum inum).0 y) in
              absurd (live (ap (λ a. a.inode_type) (same ∙ q) ∙ free))
          | inr e ↦ rw e (same, live)
        ];
  }

  update-Changed :
      (i : ℕ) (d : Dinode)
      → 0 < (s.inode i).ref
      → Changed s
          (iupdate i (put_inode i (record (s.inode i) { copy = d }) s))
          i
          (record (s.inode i) { copy = d })
  unfolding iupdate
  update-Changed i d p = record {
    here = rw ((==_iff i i).1 refl) refl;
    others = λ j ne. rw (==_ne j i ne) refl;
    same_disk = λ j ne q. rw ((==_iff i i).1 refl) (rw (other_key i j ne p q) refl);
  }

  pub written :
      (i : ℕ) (d : Dinode)
      → (iupdate i (put_inode i (record (s.inode i) { copy = d }) s)).disk
          (s.inode i).dev
          (s.inode i).inum
        ≡ d
  unfolding iupdate
  written i d = rw ((==_iff i i).1 refl) (
      rw
        (
          (==_iff (s.inode i).dev (s.inode i).dev).1 refl,
          (==_iff (s.inode i).inum (s.inode i).inum).1 refl,
        )
        refl)

  pub update-IsCoherent :
      (i : ℕ) (d : Dinode)
      → 0 < (s.inode i).ref
      → (s.inode i).valid ≡ true
      → d.inode_type ≢ 0
      → IsCoherent (iupdate i (put_inode i (record (s.inode i) { copy = d }) s))
  update-IsCoherent i d p v live =
      Changed-IsCoherent (update-Changed i d p) inv (λ q. inv.inside i p)
        (λ q j ne r x y. ne (inv.unique j i r p x y)) (λ q w. (sym (written i d), live))

  freed : ℕ → Inode
  freed i = record (s.inode i) {
    copy = record (emptied (s.inode i).copy) { inode_type = 0 };
    valid = false;
    ref = (s.inode i).ref - 1;
  }

  free-Changed : (i : ℕ) → 0 < (s.inode i).ref → Changed s (drop_ref i (free_inode i s)) i (freed i)
  unfolding freed
  free-Changed i p = record {
    here = rw ((==_iff i i).1 refl) refl;
    others = λ j ne. rw (==_ne j i ne) refl;
    same_disk = λ j ne q. rw (other_key i j ne p q) refl;
  }

  pub iput-IsCoherent : (i : ℕ) → 0 < (s.inode i).ref → IsCoherent (iput i s)
  unfolding iput freed
  iput-IsCoherent i p =
      elim (Bool-cases
        (((s.inode i).valid && (s.inode i).copy.nlink == 0) && (s.inode i).ref == 1)) [
          | inr e ↦ rw e (count-IsCoherent i ((s.inode i).ref - 1) (λ q. p))
          | inl e ↦
              let gone : (freed i).ref ≡ 0 = ground arith in
              rw e (
                Changed-IsCoherent (free-Changed i p) inv (λ q. absurd (omega arith))
                  (λ q. absurd (omega arith)) (λ q. absurd (omega arith)))
        ]

alloc_safe :
    (s : Cache) (dev inum : ℕ) (d : Dinode)
    → IsCoherent s
    → (s.disk dev inum).inode_type ≡ 0
    → IfSome (λ r. IsCoherent r.0) (iget dev inum (put_dinode dev inum d s))
alloc_safe s dev inum d inv free = iget_safe (unread-IsCoherent inv dev inum d free) dev inum

module _ {s : Cache} (inv : IsCoherent s) where
  ialloc_safe :
      (left inum dev inode_type : ℕ)
      → IfSome (λ r. IsCoherent r.0) (ialloc_from left inum dev inode_type s)
  unfolding ialloc_from
  ialloc_safe zero inum dev inode_type = tt
  ialloc_safe (suc left) inum dev inode_type =
      elim (Bool-cases ((s.disk dev inum).inode_type == 0)) [
        | inl e ↦ rw e (alloc_safe s dev inum (fresh inode_type) inv ((==_iff _ 0).0 e))
        | inr e ↦ rw e (ialloc_safe left (inum + 1) dev inode_type)
      ]

Step-IsCoherent : {s t : Cache} → Step s t → IsCoherent s → IsCoherent t
unfolding idup ialloc
Step-IsCoherent (gets dev inum e) inv =
    subst (IfSome (λ r. IsCoherent r.0)) e (iget_safe inv dev inum)
Step-IsCoherent {s} (dups i p) inv = count-IsCoherent inv i ((s.inode i).ref + 1) (λ q. p)
Step-IsCoherent (locks i e) inv = subst (IfSome IsCoherent) e (ilock_safe inv i)
Step-IsCoherent (updates i d p v live) inv = update-IsCoherent inv i d p v live
Step-IsCoherent (puts i p) inv = iput-IsCoherent inv i p
Step-IsCoherent (allocs ninodes dev inode_type e) inv =
    subst (IfSome (λ r. IsCoherent r.0)) e (ialloc_safe inv (ninodes - 1) 1 dev inode_type)

-- Whatever sequence of calls the file system makes from an empty cache on: the entries in use are within
-- the array, no two of them are of the same inode, and each that has been read agrees in every field,
-- the permission bits among them, with what is on the disk and is of no free inode. No call of
-- iget, ialloc or iput breaks this where it takes an entry or an inode that was used before.
pub Reach-IsCoherent : {s : Cache} → Reach s → IsCoherent s
Reach-IsCoherent (start s empty) = record {
  inside = λ i p. absurd (omega (arith, empty i));
  unique = λ i j p q x y. absurd (omega (arith, empty i));
  agrees = λ i p v. absurd (omega (arith, empty i));
}
Reach-IsCoherent (later r st) = Step-IsCoherent st (Reach-IsCoherent r)
