-- ===== src/Paging/Walk.antt =====
-- `walkpgdir` of vm.c.
use col.Base.{
  ap, ==_iff, ==_ne, Bool, Bool-cases, List, Option, [], ◌∷◌, arith, false, true, inl, inr, none,
  some, refl, subst, sym, if◌then◌else◌, ℕ, ◌%◌, ◌+◌, ◌==◌, ◌∙◌, ◌≡◌, ◌≢◌, ◌⊎◌,
}
use col.Paging.{
  pdx, ptx, pte_addr, is_present, Memory, put_entry_at, clear_page, new_table, walkpgdir,
}
use col.Paging.Tree.{entry_of, entry_present, entry_absent, IsFree, NoTwice, IsTree}

-- The walk found table `t` for `va`, and what is mapped is as before.
pub record Walked (m m' : Memory) (pgdir va t : ℕ) : Type 0 where
  pub tree : IsTree m' pgdir
  pub there : is_present (m'.words pgdir (pdx va)) ≡ true
  pub table : pte_addr (m'.words pgdir (pdx va)) ≡ t
  pub same : (v : ℕ) → entry_of m' pgdir v ≡ entry_of m pgdir v

-- Directory entry `i` had no table, and gets page `x`.
module _ (m : Memory) (pgdir i x : ℕ) (rest : List ℕ) (f : m.free ≡ x ∷ rest) (t : IsTree m pgdir)
    (missing : is_present (m.words pgdir i) ≡ false) where
  abbrev pub after : Memory
  after = put_entry_at pgdir i (x + 7) (clear_page x (record m { free = rest }))

  x_free : IsFree m.free x
  x_free = subst (λ ps. IsFree ps x) (sym f) (inl refl)

  x_ne : pgdir ≢ x
  x_ne e = t.free_apart x x_free (sym e)

  whole : x % 4096 ≡ 0
  whole = t.free_whole x x_free

  directory : (j : ℕ) → after.words pgdir j ≡ (if j == i then x + 7 else m.words pgdir j)
  directory j =
      let self : (pgdir == pgdir) ≡ true = (==_iff pgdir pgdir).1 refl in
      let other : (pgdir == x) ≡ false = ==_ne pgdir x x_ne in
      elim (Bool-cases (j == i)) [ inl e ↦ rw (self, e) refl | inr e ↦ rw (self, e, other) refl ]

  new_addr : pte_addr (x + 7) ≡ x
  new_addr = let w = whole in omega arith

  new_present : is_present (x + 7) ≡ true
  new_present = let w = whole in ground arith

  other_words : (y k : ℕ) → y ≢ pgdir → y ≢ x → after.words y k ≡ m.words y k
  other_words y k a b = rw (==_ne y pgdir a, ==_ne y x b) refl

  new_words : (k : ℕ) → after.words x k ≡ 0
  new_words k =
      let self : (x == x) ≡ true = (==_iff x x).1 refl in
      rw (==_ne x pgdir (λ e. x_ne (sym e)), self) refl

  -- A table of the directory after this is the new one or an old one.
  new_or_old :
      (j : ℕ)
      → is_present (after.words pgdir j) ≡ true
      → ((j ≡ i) × (pte_addr (after.words pgdir j) ≡ x))
        ⊎ ((is_present (m.words pgdir j) ≡ true) × (after.words pgdir j ≡ m.words pgdir j))
  new_or_old j p = elim (Bool-cases (j == i)) [
    | inl e ↦ inl ((==_iff j i).0 e, ap pte_addr (directory j ∙ rw e refl) ∙ new_addr)
    | inr e ↦
        let q : after.words pgdir j ≡ m.words pgdir j = directory j ∙ rw e refl in
        inr (ap is_present (sym q) ∙ p, q)
  ]

  both_tables :
      (j k : ℕ)
      → ((j ≡ i) × (pte_addr (after.words pgdir j) ≡ x))
        ⊎ ((is_present (m.words pgdir j) ≡ true) × (after.words pgdir j ≡ m.words pgdir j))
      → ((k ≡ i) × (pte_addr (after.words pgdir k) ≡ x))
        ⊎ ((is_present (m.words pgdir k) ≡ true) × (after.words pgdir k ≡ m.words pgdir k))
      → pte_addr (after.words pgdir j) ≡ pte_addr (after.words pgdir k)
      → j ≡ k
  both_tables j k (inl (a, _)) (inl (b, _)) e = a ∙ sym b
  both_tables j k (inl (_, q)) (inr (old, r)) e =
      absurd (t.free_unused x k x_free old (ap pte_addr (sym r) ∙ sym e ∙ q))
  both_tables j k (inr (old, r)) (inl (_, q)) e =
      absurd (t.free_unused x j x_free old (ap pte_addr (sym r) ∙ e ∙ q))
  both_tables j k (inr (old, r)) (inr (old', r')) e =
      t.distinct j k old old' (ap pte_addr (sym r) ∙ e ∙ ap pte_addr r')

  after-IsTree : IsTree after pgdir
  after-IsTree = record {
    distinct = λ j k pj pk e. both_tables j k (new_or_old j pj) (new_or_old k pk) e;
    apart = λ j p. elim (new_or_old j p) [
      | inl (_, q) ↦ λ e. x_ne (sym e ∙ q)
      | inr (old, q) ↦ λ e. t.apart j old (ap pte_addr (sym q) ∙ e)
    ];
    free_apart = λ y fr. t.free_apart y (subst (λ ps. IsFree ps y) (sym f) (inr fr));
    free_unused = λ y j fr p. elim (new_or_old j p) [
      | inl (_, q) ↦ λ e. (subst NoTwice f t.no_twice).0 y fr (sym e ∙ q)
      | inr (old, q) ↦ λ e.
          t.free_unused y j (subst (λ ps. IsFree ps y) (sym f) (inr fr)) old
            (ap pte_addr (sym q) ∙ e)
    ];
    free_whole = λ y fr. t.free_whole y (subst (λ ps. IsFree ps y) (sym f) (inr fr));
    no_twice = (subst NoTwice f t.no_twice).1;
  }

  after-same : (v : ℕ) → entry_of after pgdir v ≡ entry_of m pgdir v
  after-same v = elim (Bool-cases (pdx v == i)) [
    | inl e ↦
        let q : after.words pgdir (pdx v) ≡ x + 7 = directory (pdx v) ∙ rw e refl in
        let was : is_present (m.words pgdir (pdx v)) ≡ false =
          ap (λ j. is_present (m.words pgdir j)) ((==_iff _ _).0 e) ∙ missing in
        entry_present after pgdir v (x + 7) q new_present
        ∙ ap (λ y. after.words y (ptx v)) new_addr
        ∙ new_words (ptx v)
        ∙ sym (entry_absent m pgdir v (m.words pgdir (pdx v)) refl was)
    | inr e ↦
        let d : ℕ = m.words pgdir (pdx v) in
        let q : after.words pgdir (pdx v) ≡ d = directory (pdx v) ∙ rw e refl in
        elim (Bool-cases (is_present d)) [
          | inl p ↦
              entry_present after pgdir v d q p
              ∙ other_words (pte_addr d) (ptx v) (t.apart (pdx v) p)
                  (t.free_unused x (pdx v) x_free p)
              ∙ sym (entry_present m pgdir v d refl p)
          | inr p ↦ entry_absent after pgdir v d q p ∙ sym (entry_absent m pgdir v d refl p)
        ]
  ]

-- The same of a result, where there is one.
abbrev Finds : Memory → (pgdir va : ℕ) → Memory × Option ℕ → Type 0
Finds m pgdir va (m', none) = Unit
Finds m pgdir va (m', some t) = Walked m m' pgdir va t

walk_new :
    (pgdir va : ℕ) (free : List ℕ) (m m' : Memory) (t : ℕ)
    → m.free ≡ free
    → IsTree m pgdir
    → is_present (m.words pgdir (pdx va)) ≡ false
    → new_table free pgdir (pdx va) m ≡ (m', some t)
    → Walked m m' pgdir va t
walk_new pgdir va [] m m' t f tree missing e = cc
walk_new pgdir va (x ∷ rest) m m' t f tree missing e =
    let i = pdx va in
    let self : (i == i) ≡ true = (==_iff i i).1 refl in
    let q : (pdx va == i) ≡ true = self in
    let d = directory m pgdir i x rest f tree missing i ∙ rw self refl in
    subst (Finds m pgdir va) e (record {
      tree = after-IsTree m pgdir i x rest f tree missing;
      there = ap is_present d ∙ new_present m pgdir i x rest f tree missing;
      table = ap pte_addr d ∙ new_addr m pgdir i x rest f tree missing;
      same = after-same m pgdir i x rest f tree missing;
    })

walk_made :
    (pgdir va : ℕ) (alloc : Bool) (m m' : Memory) (t : ℕ)
    → IsTree m pgdir
    → is_present (m.words pgdir (pdx va)) ≡ false
    → (if alloc then new_table m.free pgdir (pdx va) m else (m, none)) ≡ (m', some t)
    → Walked m m' pgdir va t
walk_made pgdir va true m m' t tree p e = walk_new pgdir va m.free m m' t refl tree p e
walk_made pgdir va false m m' t tree p e = cc

-- A walk that finds a table, or makes one, keeps the tree well-formed and changes no mapping.
pub walkpgdir-Walked :
    (pgdir va : ℕ) (alloc : Bool) (m m' : Memory) (t : ℕ)
    → IsTree m pgdir
    → walkpgdir pgdir va alloc m ≡ (m', some t)
    → Walked m m' pgdir va t
unfolding walkpgdir
walkpgdir-Walked pgdir va alloc m m' t tree e =
    elim (Bool-cases (is_present (m.words pgdir (pdx va)))) [
      | inl p ↦
          let q : (m, some (pte_addr (m.words pgdir (pdx va)))) ≡ (m', some t) =
            rw (walkpgdir, p) at e in
          subst (Finds m pgdir va) q
            (record { tree = tree; there = p; table = refl; same = λ v. refl })
      | inr p ↦ walk_made pgdir va alloc m m' t tree p (rw (walkpgdir, p) at e)
    ]
