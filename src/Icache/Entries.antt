-- ===== src/Icache/Entries.antt =====
-- When the entries of the inode cache agree with the disk, and the change of one entry.
use native.Mathlib.Decide.{ℕ_discrete}
use col.Base.{Option, none, some, true, ℕ, ◌≡◌, ◌≢◌, ◌<◌, refl, sym, ap, subst, ◌∙◌, ==_iff, ==_ne}
use col.Icache.{Inode, Cache, ninode, put_inode}

-- Every inode in use has one entry. An entry that has been read is of an inode that is not free, and
-- agrees with the disk.
pub record IsCoherent (s : Cache) : Type 0 where
  pub inside : (i : ℕ) → 0 < (s.inode i).ref → i < ninode
  pub unique :
      (i j : ℕ)
      → 0 < (s.inode i).ref
      → 0 < (s.inode j).ref
      → (s.inode i).dev ≡ (s.inode j).dev
      → (s.inode i).inum ≡ (s.inode j).inum
      → i ≡ j
  pub agrees :
      (i : ℕ)
      → 0 < (s.inode i).ref
      → (s.inode i).valid ≡ true
      → ((s.inode i).copy ≡ s.disk (s.inode i).dev (s.inode i).inum)
        × ((s.inode i).copy.inode_type ≢ 0)

-- Only the entry `i` changes, to `ip`, and the disk only where no other entry is in use.
pub record Changed (s t : Cache) (i : ℕ) (ip : Inode) : Type 0 where
  pub here : t.inode i ≡ ip
  pub others : (j : ℕ) → j ≢ i → t.inode j ≡ s.inode j
  pub same_disk :
      (j : ℕ)
      → j ≢ i
      → 0 < (s.inode j).ref
      → t.disk (s.inode j).dev (s.inode j).inum ≡ s.disk (s.inode j).dev (s.inode j).inum

module _ {s t : Cache} {i : ℕ} {ip : Inode} (c : Changed s t i ip) (inv : IsCoherent s)
    (room : 0 < ip.ref → i < ninode)
    (only : 0 < ip.ref
      → (j : ℕ) → j ≢ i
      → 0 < (s.inode j).ref
      → (s.inode j).dev ≡ ip.dev
      → (s.inode j).inum ≡ ip.inum
      → ⊥)
    (right : 0 < ip.ref
      → ip.valid ≡ true
      → (ip.copy ≡ t.disk ip.dev ip.inum) × (ip.copy.inode_type ≢ 0)) where
  abbrev At : ℕ → Inode → Type 0
  At j jp =
      (0 < jp.ref → j < ninode)
      × (0 < jp.ref
          → jp.valid ≡ true
          → (jp.copy ≡ t.disk jp.dev jp.inum) × (jp.copy.inode_type ≢ 0))

  each_entry : (j : ℕ) → At j (t.inode j)
  each_entry j = elim (ℕ_discrete j i) [
    | yes e ↦ subst (λ x. At x (t.inode x)) (sym e) (subst (At i) (sym c.here) (room, right))
    | no ne ↦ subst (At j) (sym (c.others j ne)) (
      inv.inside j,
      λ p v. ((inv.agrees j p v).0 ∙ sym (c.same_disk j ne p), (inv.agrees j p v).1),
    )
  ]

  IsAlike : Inode → Inode → Type 0
  IsAlike ip jp = (0 < ip.ref) × (0 < jp.ref) × (ip.dev ≡ jp.dev) × (ip.inum ≡ jp.inum)

  alone : (j k : ℕ) → IsAlike (t.inode j) (t.inode k) → j ≡ k
  unfolding IsAlike
  alone j k both = elim (ℕ_discrete j i) [
    | yes e ↦ elim (ℕ_discrete k i) [
      | yes f ↦ e ∙ sym f
      | no nf ↦
          let (p, q, x, y) = subst (λ a. IsAlike a (t.inode k)) (ap t.inode e ∙ c.here) both in
          let (p', q', x', y') = subst (IsAlike ip) (c.others k nf) (p, q, x, y) in
          absurd (only p' k nf q' (sym x') (sym y'))
    ]
    | no ne ↦ elim (ℕ_discrete k i) [
      | yes f ↦
          let (p, q, x, y) = subst (IsAlike (t.inode j)) (ap t.inode f ∙ c.here) both in
          let (p', q', x', y') = subst (λ a. IsAlike a ip) (c.others j ne) (p, q, x, y) in
          absurd (only q' j ne p' x' y')
      | no nf ↦
          let (p, q, x, y) =
            subst (IsAlike (s.inode j)) (c.others k nf)
              (subst (λ a. IsAlike a (t.inode k)) (c.others j ne) both) in
          inv.unique j k p q x y
    ]
  ]

  pub Changed-IsCoherent : IsCoherent t
  unfolding IsAlike
  Changed-IsCoherent = record {
    inside = λ j. (each_entry j).0;
    unique = λ j k p q x y. alone j k (p, q, x, y);
    agrees = λ j. (each_entry j).1;
  }

-- What holds of the answer, if there is one.
abbrev pub IfSome {ℓ} : {A : Type ℓ} → (A → Type 0) → Option A → Type 0
IfSome P none = Unit
IfSome P (some a) = P a

-- An entry is put in its place, the disk stays.
pub put_inode-Changed : (s : Cache) (i : ℕ) (ip : Inode) → Changed s (put_inode i ip s) i ip
put_inode-Changed s i ip = record {
  here = rw ((==_iff i i).1 refl) refl;
  others = λ j ne. rw (==_ne j i ne) refl;
  same_disk = λ j ne p. refl;
}
