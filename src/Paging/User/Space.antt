-- ===== src/Paging/User/Space.antt =====
-- Address spaces in which no physical page has two uses, and the release of one user page.
use col.Base.{
  ◌^◌, ap, ==_ne, Bool-cases, ◌∷◌, arith, false, true, inl, inr, some, refl, subst, sym,
  if◌then◌else◌, ℕ, ◌%◌, ◌+◌, ◌==◌, ◌∙◌, ◌≡◌, ◌≢◌, ◌<◌,
}
use col.Pages.{is_bad, kernbase}
use col.Paging.{pdx, ptx, pte_addr, is_present, Memory, put_entry_at}
use col.Paging.Tree.{entry_of, entry_present, entry_absent, IsFree, IsTree}
use col.Paging.Walk.{Walked}
use col.Paging.Maps.{same_page, put-IsTree, put-entries}
use col.Paging.User.{kfree_page, next_free, release_entry}

-- The page that `v` is mapped to.
abbrev pub page_of : Memory → (pgdir v : ℕ) → ℕ
page_of m pgdir v = pte_addr (entry_of m pgdir v)

abbrev pub IsMapped : Memory → (pgdir v : ℕ) → Type 0
IsMapped m pgdir v = is_present (entry_of m pgdir v) ≡ true

-- Below `limit`, what is mapped are pages that `kalloc` could have given: one for each page of
-- addresses, none of them the directory, a table or free.
pub record IsSpace (kernel_end limit : ℕ) (m : Memory) (pgdir : ℕ) : Type 0 where
  pub tree : IsTree m pgdir
  pub usable :
      (v : ℕ)
      → v < limit
      → IsMapped m pgdir v
      → (page_of m pgdir v ≢ 0)
        × (is_bad kernel_end ((page_of m pgdir v + kernbase) % 2 ^ 32) ≡ false)
  pub not_directory : (v : ℕ) → v < limit → IsMapped m pgdir v → page_of m pgdir v ≢ pgdir
  pub not_table :
      (v i : ℕ)
      → v < limit
      → IsMapped m pgdir v
      → is_present (m.words pgdir i) ≡ true
      → page_of m pgdir v ≢ pte_addr (m.words pgdir i)
  pub not_free : (v : ℕ) → v < limit → IsMapped m pgdir v → IsFree m.free (page_of m pgdir v) → ⊥
  pub alone :
      (v w : ℕ)
      → v < limit
      → w < limit
      → IsMapped m pgdir v
      → IsMapped m pgdir w
      → page_of m pgdir v ≡ page_of m pgdir w
      → same_page v w ≡ true

-- The user page of `a` is released.
module _ (kernel_end limit : ℕ) (m : Memory) (pgdir a t : ℕ) (s : IsSpace kernel_end limit m pgdir)
    (lt : a < limit) (w : Walked m m pgdir a t) (here : IsMapped m pgdir a) where
  abbrev page : ℕ
  page = page_of m pgdir a

  abbrev freed : Memory
  freed = record {
    words =
        λ x y. if x == page then (if y == 0 then next_free m.free else 0x01010101) else m.words x y;
    free = page ∷ m.free;
  }

  same_directory : (i : ℕ) → freed.words pgdir i ≡ m.words pgdir i
  same_directory i = rw (==_ne pgdir page (λ e. s.not_directory a lt here (sym e))) refl

  same_table :
      (i k : ℕ)
      → is_present (m.words pgdir i) ≡ true
      → freed.words (pte_addr (m.words pgdir i)) k ≡ m.words (pte_addr (m.words pgdir i)) k
  same_table i k p =
      rw (==_ne (pte_addr (m.words pgdir i)) page (λ e. s.not_table a i lt here p (sym e))) refl

  freed-same : (v : ℕ) → entry_of freed pgdir v ≡ entry_of m pgdir v
  freed-same v = elim (Bool-cases (is_present (m.words pgdir (pdx v)))) [
    | inl p ↦
        entry_present freed pgdir v (m.words pgdir (pdx v)) (same_directory (pdx v)) p
        ∙ same_table (pdx v) (ptx v) p
        ∙ sym (entry_present m pgdir v (m.words pgdir (pdx v)) refl p)
    | inr p ↦
        entry_absent freed pgdir v (m.words pgdir (pdx v)) (same_directory (pdx v)) p
        ∙ sym (entry_absent m pgdir v (m.words pgdir (pdx v)) refl p)
  ]

  freed-IsTree : IsTree freed pgdir
  freed-IsTree =
      let d = same_directory in
      let r = s.tree in
      let old =
        λ (i : ℕ) (p : is_present (freed.words pgdir i) ≡ true). ap is_present (sym (d i)) ∙ p in
      record {
        distinct = λ i j pi pj q.
            r.distinct i j (old i pi) (old j pj) (ap pte_addr (sym (d i)) ∙ q ∙ ap pte_addr (d j));
        apart = λ i p q. r.apart i (old i p) (ap pte_addr (sym (d i)) ∙ q);
        free_apart = λ x f. elim f [
          | inl e ↦ λ q. s.not_directory a lt here (sym e ∙ q)
          | inr f' ↦ r.free_apart x f'
        ];
        free_unused = λ x i f p q. elim f [
          | inl e ↦ s.not_table a i lt here (old i p) (sym (ap pte_addr (sym (d i)) ∙ q ∙ e))
          | inr f' ↦ r.free_unused x i f' (old i p) (ap pte_addr (sym (d i)) ∙ q)
        ];
        free_whole = λ x f. elim f [
          | inl e ↦ let whole : page % 4096 ≡ 0 = omega arith in ap (λ y. y % 4096) e ∙ whole
          | inr f' ↦ r.free_whole x f'
        ];
        no_twice = (λ x f e. s.not_free a lt here (subst (IsFree m.free) e f), r.no_twice);
      }

  freed-Walked : Walked m freed pgdir a t
  freed-Walked = record {
    tree = freed-IsTree;
    there = ap is_present (same_directory (pdx a)) ∙ w.there;
    table = ap pte_addr (same_directory (pdx a)) ∙ w.table;
    same = freed-same;
  }

  abbrev pub released : Memory
  released = put_entry_at t (ptx a) 0 freed

  pub released-entries :
      (v : ℕ) → entry_of released pgdir v ≡ (if same_page a v then 0 else entry_of m pgdir v)
  released-entries v =
      put-entries m freed pgdir a t 0 freed-Walked v
      ∙ ap (λ z. if same_page a v then 0 else z) (freed-same v)

  released_directory : (i : ℕ) → released.words pgdir i ≡ m.words pgdir i
  released_directory i =
      let ne : (pgdir == t) ≡ false =
        ==_ne pgdir t (λ q. s.tree.apart (pdx a) w.there (w.table ∙ sym q)) in
      rw ne (same_directory i)

  -- What is still mapped is on another page, and was mapped before.
  still :
      (v : ℕ)
      → IsMapped released pgdir v
      → (same_page a v ≡ false) × (entry_of released pgdir v ≡ entry_of m pgdir v)
  still v p = elim (Bool-cases (same_page a v)) [
    | inl e ↦
        let q : entry_of released pgdir v ≡ 0 = released-entries v ∙ rw e refl in
        cc (sym p ∙ ap is_present q)
    | inr e ↦ (e, released-entries v ∙ rw e refl)
  ]

  pub released-IsSpace : IsSpace kernel_end limit released pgdir
  released-IsSpace =
      let was = λ (v : ℕ) (p : IsMapped released pgdir v). ap is_present (sym (still v p).1) ∙ p in
      let at = λ (v : ℕ) (p : IsMapped released pgdir v). ap pte_addr (still v p).1 in
      record {
        tree = put-IsTree m freed pgdir a t 0 freed-Walked;
        usable = λ v l p.
            subst (λ x. (x ≢ 0) × (is_bad kernel_end ((x + kernbase) % 2 ^ 32) ≡ false))
              (sym (at v p)) (s.usable v l (was v p));
        not_directory = λ v l p q. s.not_directory v l (was v p) (sym (at v p) ∙ q);
        not_table = λ v i l p there q.
            s.not_table v i l (was v p) (ap is_present (sym (released_directory i)) ∙ there)
              (sym (at v p) ∙ q ∙ ap pte_addr (released_directory i));
        not_free = λ v l p f. elim f [
          | inl e ↦
              cc (sym (still v p).0 ∙ s.alone a v lt l here (was v p) (sym (sym (at v p) ∙ e)))
          | inr f' ↦ s.not_free v l (was v p) (subst (IsFree m.free) (at v p) f')
        ];
        alone = λ v x lv lx pv px q.
            s.alone v x lv lx (was v pv) (was x px) (sym (at v pv) ∙ q ∙ at x px);
      }

  pub release_entry_lem :
      (m.words t (ptx a) ≡ entry_of m pgdir a) → release_entry kernel_end t a m ≡ some released
  unfolding release_entry kfree_page
  release_entry_lem e =
      let (nonzero, good) = s.usable a lt here in rw (e, here, ==_ne page 0 nonzero, good) refl
