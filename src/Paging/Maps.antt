-- ===== src/Paging/Maps.antt =====
-- `mappages` of vm.c.
use col.Base.{
  ap, ==_iff, ==_ne, Bool, Bool-cases, Option, false, true, inl, inr, none, some, refl, subst, sym,
  if◌then◌else◌, ℕ, ◌==◌, ◌&&◌, ◌∙◌, ◌≡◌, ◌≢◌,
}
use col.Paging.{
  pdx, ptx, pte_addr, is_present, Memory, put_entry_at, walkpgdir, MapEnd, mapped, no_memory, remap,
  leaf, write_leaf, map_page,
}
use col.Paging.Tree.{entry_of, entry_present, entry_absent, IsTree}
use col.Paging.Walk.{Walked, walkpgdir-Walked}

-- Whether two addresses have the same entry.
abbrev pub same_page : (a v : ℕ) → Bool
same_page a v = pdx v == pdx a && ptx v == ptx a

-- The entry of `a`, which was free, is `e` now, and nothing else is mapped otherwise.
pub record Mapped (m m' : Memory) (pgdir a e : ℕ) : Type 0 where
  pub tree : IsTree m' pgdir
  pub was_free : is_present (entry_of m pgdir a) ≡ false
  pub entries : (v : ℕ) → entry_of m' pgdir v ≡ (if same_page a v then e else entry_of m pgdir v)

-- The entry is written into the table.
module _ (m m1 : Memory) (pgdir a t e : ℕ) (w : Walked m m1 pgdir a t) where
  abbrev pub after : Memory
  after = put_entry_at t (ptx a) e m1

  t_ne : pgdir ≢ t
  t_ne q = w.tree.apart (pdx a) w.there (w.table ∙ sym q)

  same_directory : (i : ℕ) → after.words pgdir i ≡ m1.words pgdir i
  same_directory i = rw (==_ne pgdir t t_ne) refl

  pub put-IsTree : IsTree after pgdir
  put-IsTree =
      let d = same_directory in
      let r = w.tree in
      let old =
        λ (i : ℕ) (p : is_present (after.words pgdir i) ≡ true). ap is_present (sym (d i)) ∙ p in
      record {
        distinct = λ i j pi pj q.
            r.distinct i j (old i pi) (old j pj) (ap pte_addr (sym (d i)) ∙ q ∙ ap pte_addr (d j));
        apart = λ i p q. r.apart i (old i p) (ap pte_addr (sym (d i)) ∙ q);
        free_apart = r.free_apart;
        free_unused = λ x i f p q. r.free_unused x i f (old i p) (ap pte_addr (sym (d i)) ∙ q);
        free_whole = r.free_whole;
        no_twice = r.no_twice;
      }

  pub put-entries :
      (v : ℕ) → entry_of after pgdir v ≡ (if same_page a v then e else entry_of m1 pgdir v)
  put-entries v =
      let d : ℕ = m1.words pgdir (pdx v) in
      elim (Bool-cases (pdx v == pdx a)) [
        | inl s ↦
            let at : d ≡ m1.words pgdir (pdx a) = ap (m1.words pgdir) ((==_iff _ _).0 s) in
            let p : is_present d ≡ true = ap is_present at ∙ w.there in
            let table : pte_addr d ≡ t = ap pte_addr at ∙ w.table in
            let self : (t == t) ≡ true = (==_iff t t).1 refl in
            entry_present after pgdir v d (same_directory (pdx v)) p
            ∙ ap (λ y. after.words y (ptx v)) table
            ∙ rw (self, s)
                (ap (λ z. if ptx v == ptx a then e else z)
                  (ap (λ y. m1.words y (ptx v)) (sym table)
                    ∙ sym (entry_present m1 pgdir v d refl p)))
        | inr ne ↦ elim (Bool-cases (is_present d)) [
          | inl p ↦
              let other : pte_addr d ≢ t = λ q.
                (let j = w.tree.distinct (pdx v) (pdx a) p w.there (q ∙ sym w.table) in
                  cc ((==_iff (pdx v) (pdx a)).1 j)) in
              entry_present after pgdir v d (same_directory (pdx v)) p
              ∙ rw (==_ne (pte_addr d) t other, ne) (sym (entry_present m1 pgdir v d refl p))
          | inr p ↦
              entry_absent after pgdir v d (same_directory (pdx v)) p
              ∙ rw ne (sym (entry_absent m1 pgdir v d refl p))
        ]
      ]

-- What a round has done, where it mapped the page.
abbrev Rounded : (m : Memory) (pgdir a e : ℕ) → Memory × MapEnd → Type 0
Rounded m pgdir a e (m', mapped) = Mapped m m' pgdir a e
Rounded m pgdir a e (m', no_memory) = Unit
Rounded m pgdir a e (m', remap) = Unit

walked :
    (pgdir a pa perm : ℕ) (m : Memory) (r : Memory × Option ℕ)
    → IsTree m pgdir
    → walkpgdir pgdir a true m ≡ r
    → Rounded m pgdir a (leaf pa perm) (write_leaf a pa perm r)
walked pgdir a pa perm m (m1, none) tree q = tt
walked pgdir a pa perm m (m1, some t) tree q = elim (Bool-cases (is_present (m1.words t (ptx a)))) [
  | inl p ↦ rw p tt
  | inr p ↦
      let w = walkpgdir-Walked pgdir a true m m1 t tree q in
      rw p (record {
        tree = put-IsTree m m1 pgdir a t (leaf pa perm) w;
        was_free =
            ap is_present (
              sym (w.same a)
              ∙ entry_present m1 pgdir a (m1.words pgdir (pdx a)) refl w.there
              ∙ ap (λ y. m1.words y (ptx a)) w.table)
            ∙ p;
        entries = λ v.
            put-entries m m1 pgdir a t (leaf pa perm) w v
            ∙ ap (λ z. if same_page a v then leaf pa perm else z) (w.same v);
      })
]

-- A round of `mappages` that maps the page of `a` keeps the tree well-formed. The entry of `a` was free,
-- and is that of the physical page now; every other address keeps its entry.
pub map_page-Mapped :
    (pgdir a pa perm : ℕ) (m m' : Memory)
    → IsTree m pgdir
    → map_page pgdir a pa perm m ≡ (m', mapped)
    → Mapped m m' pgdir a (leaf pa perm)
unfolding map_page
map_page-Mapped pgdir a pa perm m m' tree e =
    subst (Rounded m pgdir a (leaf pa perm)) e
      (walked pgdir a pa perm m (walkpgdir pgdir a true m) tree refl)
