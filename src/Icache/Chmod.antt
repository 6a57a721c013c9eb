-- ===== src/Icache/Chmod.antt =====
-- `chmod_actual`, and what the inode says afterwards.
use col.Base.{
  ◌/◌, ◌%◌, ap₂, List, arith, false, ltb, some, true, ℕ, ◌&&◌, ◌==◌, ◌≡◌, ◌≢◌, ◌<◌, ◌≤◌, inl, inr,
  refl, sym, ap, subst, Bool-cases, ◌∙◌, ==_iff,
}
use col.Icache.{
  may_execute, may_write, may_read, Cache, Dinode, ilock, iupdate, iput, chmod_actual, is_chmod,
  put_inode, Reach,
}
use col.Icache.Entries.{IsCoherent, IfSome}
use col.Icache.Coherent.{written, ilock_safe, Reach-IsCoherent, update-IsCoherent, iput-IsCoherent}

-- After `ilock` has read the inode of entry `i`.
abbrev fill : ℕ → Cache → Cache
fill i s =
    put_inode i
      (record (s.inode i) { copy = s.disk (s.inode i).dev (s.inode i).inum; valid = true }) s

-- Entry `i` is locked and read.
record Locked (s l : Cache) (i : ℕ) : Type 0 where
  coherent : IsCoherent l
  used : 0 < (l.inode i).ref
  read : (l.inode i).valid ≡ true
  dev : (l.inode i).dev ≡ (s.inode i).dev
  inum : (l.inode i).inum ≡ (s.inode i).inum
  copy : (l.inode i).copy ≡ s.disk (s.inode i).dev (s.inode i).inum
  disk : (x y : ℕ) → l.disk x y ≡ s.disk x y

ilock-Locked :
    (s : Cache) (i : ℕ)
    → IsCoherent s
    → 0 < (s.inode i).ref
    → (s.disk (s.inode i).dev (s.inode i).inum).inode_type ≢ 0
    → (l : Cache) × (ilock i s ≡ some l) × Locked s l i
unfolding ilock
ilock-Locked s i inv p live =
    let nonzero : ((s.inode i).ref == 0) ≡ false = ground arith in
    let some_type : ((s.disk (s.inode i).dev (s.inode i).inum).inode_type == 0) ≡ false =
      ground arith in
    elim (Bool-cases (s.inode i).valid) [
      | inl v ↦ (
        s,
        rw (nonzero, v) refl,
        record {
          coherent = inv;
          used = p;
          read = v;
          dev = refl;
          inum = refl;
          copy = (inv.agrees i p v).0;
          disk = λ x y. refl;
        },
      )
      | inr v ↦
          let e : ilock i s ≡ some (fill i s) = rw (ilock, nonzero, v, some_type) refl in
          (
            fill i s,
            e,
            record {
              coherent = subst (IfSome IsCoherent) e (ilock_safe inv i);
              used = rw ((==_iff i i).1 refl) p;
              read = rw ((==_iff i i).1 refl) refl;
              dev = rw ((==_iff i i).1 refl) refl;
              inum = rw ((==_iff i i).1 refl) refl;
              copy = rw ((==_iff i i).1 refl) refl;
              disk = λ x y. refl;
            },
          )
    ]

-- With a link on the disk the inode is not freed.
iput-disk : (s : Cache) (i x y : ℕ) → (s.inode i).copy.nlink ≢ 0 → (iput i s).disk x y ≡ s.disk x y
unfolding iput
iput-disk s i x y linked =
    let no_free : ((s.inode i).copy.nlink == 0) ≡ false = ground arith in
    elim (Bool-cases (s.inode i).valid) [
      | inl v ↦ rw (iput, v, no_free) refl
      | inr v ↦ rw (iput, v) refl
    ]

-- The inode (dev, inum) has the fields that it had, but for the mode, on the disk and in every entry in use that has
-- been read; all other inodes on the disk are as before.
pub record HasMode (dev inum mode : ℕ) (s t : Cache) : Type 0 where
  pub disk : t.disk dev inum ≡ record (s.disk dev inum) { mode = mode }
  pub entries :
      (k : ℕ)
      → 0 < (t.inode k).ref
      → (t.inode k).valid ≡ true
      → (t.inode k).dev ≡ dev
      → (t.inode k).inum ≡ inum
      → (t.inode k).copy ≡ record (s.disk dev inum) { mode = mode }
  pub guards :
      (k : ℕ)
      → 0 < (t.inode k).ref
      → (t.inode k).valid ≡ true
      → (t.inode k).dev ≡ dev
      → (t.inode k).inum ≡ inum
      → (may_read (t.inode k).copy ≡ (mode % 2 == 1))
        × (may_write (t.inode k).copy ≡ (mode / 2 % 2 == 1))
        × (may_execute (t.inode k).copy ≡ (mode / 4 % 2 == 1))
  pub others : (x y : ℕ) → (x == dev && y == inum) ≡ false → t.disk x y ≡ s.disk x y

-- From the state `l` that `ilock` leaves on.
module _ (s l : Cache) (mode i : ℕ) (k : Locked s l i)
    (live : (s.disk (s.inode i).dev (s.inode i).inum).inode_type ≢ 0)
    (linked : (s.disk (s.inode i).dev (s.inode i).inum).nlink ≢ 0) where
  abbrev changed : Dinode
  changed = record (l.inode i).copy { mode = mode }

  abbrev stored : Cache
  stored = iupdate i (put_inode i (record (l.inode i) { copy = changed }) l)

  same_copy : changed ≡ record (s.disk (s.inode i).dev (s.inode i).inum) { mode = mode }
  same_copy = ap {A = Dinode} {B = Dinode} (λ d. record d { mode = mode }) k.copy

  stored-IsCoherent : IsCoherent stored
  stored-IsCoherent =
      update-IsCoherent k.coherent i changed k.used k.read
        (λ e. live (ap (λ d. d.inode_type) (sym k.copy) ∙ e))

  stored_entry : stored.inode i ≡ record (l.inode i) { copy = changed }
  unfolding iupdate
  stored_entry = rw ((==_iff i i).1 refl) refl

  put-IsCoherent : IsCoherent (iput i stored)
  put-IsCoherent =
      iput-IsCoherent stored-IsCoherent i (subst (λ ip. 0 < ip.ref) (sym stored_entry) k.used)

  put-disk : (x y : ℕ) → (iput i stored).disk x y ≡ stored.disk x y
  put-disk x y = iput-disk stored i x y (
      subst (λ ip. ip.copy.nlink ≢ 0) (sym stored_entry)
        (λ e. linked (ap (λ d. d.nlink) (sym k.copy) ∙ e)))

  on_disk :
      (iput i stored).disk (s.inode i).dev (s.inode i).inum
      ≡ record (s.disk (s.inode i).dev (s.inode i).inum) { mode = mode }
  on_disk =
      put-disk (s.inode i).dev (s.inode i).inum
      ∙ ap₂ stored.disk (sym k.dev) (sym k.inum)
      ∙ written k.coherent i changed
      ∙ same_copy

  stored_other :
      (x y : ℕ)
      → (x == (l.inode i).dev && y == (l.inode i).inum) ≡ false
      → stored.disk x y ≡ l.disk x y
  unfolding iupdate
  stored_other x y ne = rw ((==_iff i i).1 refl) (rw ne refl)

  other_inodes :
      (x y : ℕ)
      → (x == (s.inode i).dev && y == (s.inode i).inum) ≡ false
      → (iput i stored).disk x y ≡ s.disk x y
  other_inodes x y ne =
      let ne' : (x == (l.inode i).dev && y == (l.inode i).inum) ≡ false = rw (k.dev, k.inum) ne in
      put-disk x y ∙ stored_other x y ne' ∙ k.disk x y

  entry_has :
      (j : ℕ)
      → 0 < ((iput i stored).inode j).ref
      → ((iput i stored).inode j).valid ≡ true
      → ((iput i stored).inode j).dev ≡ (s.inode i).dev
      → ((iput i stored).inode j).inum ≡ (s.inode i).inum
      → ((iput i stored).inode j).copy
        ≡ record (s.disk (s.inode i).dev (s.inode i).inum) { mode = mode }
  entry_has j p v d n = (put-IsCoherent.agrees j p v).0 ∙ ap₂ (iput i stored).disk d n ∙ on_disk

  put-HasMode : HasMode (s.inode i).dev (s.inode i).inum mode s (iput i stored)
  put-HasMode = record {
    disk = on_disk;
    entries = entry_has;
    guards = λ j p v d n.
        let e = entry_has j p v d n in (ap may_read e, ap may_write e, ap may_execute e);
    others = other_inodes;
  }

-- A call of chmod_actual with a mode of at most 7, for a file that is not named chmod and whose inode is
-- in the cache, in use and linked, ends with 0 in every state that the cache can be in. The new mode
-- is then on the disk and in each entry of the inode that has been read, so that later reads of the
-- inode find it; its other fields and the other inodes are as they were.
pub chmod_actual-HasMode :
    (file : List ℕ) (mode i : ℕ) (s : Cache)
    → Reach s
    → is_chmod file ≡ false
    → mode ≤ 7
    → 0 < (s.inode i).ref
    → (s.disk (s.inode i).dev (s.inode i).inum).inode_type ≢ 0
    → (s.disk (s.inode i).dev (s.inode i).inum).nlink ≢ 0
    → (t : Cache) × (chmod_actual file mode (some i) s ≡ some (t, true))
      × HasMode (s.inode i).dev (s.inode i).inum mode s t
unfolding chmod_actual
chmod_actual-HasMode file mode i s r name small p live linked =
    let (l, e, k) = ilock-Locked s i (Reach-IsCoherent r) p live in
    let fits : ltb 7 mode ≡ false = ground arith in
    (
      iput i (stored s l mode i k live linked),
      rw (name, fits, e) refl,
      put-HasMode s l mode i k live linked,
    )
