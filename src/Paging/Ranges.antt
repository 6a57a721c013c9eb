-- ===== src/Paging/Ranges.antt =====
-- The loop of `mappages` in vm.c over a range of pages.
use col.Base.{
  ap, Bool-cases, arith, false, inl, inr, leb, ltb, refl, subst, sym, suc, zero, if◌then◌else◌, ℕ,
  ◌%◌, ◌+◌, ◌-◌, ◌^◌, ◌/◌, ◌*◌, ◌<◌, ◌&&◌, ◌∙◌, ◌≡◌, ◌⊎◌, ◌≤◌,
}
use col.Paging.{
  Memory, MapEnd, mapped, no_memory, remap, leaf, map_page, map_from, mappages, pgrounddown,
}
use col.Paging.Tree.{entry_of, IsTree}
use col.Paging.Maps.{same_page, Mapped, map_page-Mapped}

same_page_lem :
    (a v : ℕ)
    → a < 2 ^ 32
    → v < 2 ^ 32
    → a % 4096 ≡ 0
    → same_page a v ≡ (leb a v && ltb v (a + 4096))
same_page_lem a v la lv al = ground arith

-- The addresses below 2 ^ 32 of the range are mapped to the pages from `pa` on, the others as before.
pub record MappedRange (m m' : Memory) (pgdir a pa perm pages : ℕ) : Type 0 where
  pub tree : IsTree m' pgdir
  pub entries :
      (v : ℕ)
      → v < 2 ^ 32
      → entry_of m' pgdir v ≡ (
          if leb a v && ltb v (a + 4096 * pages)
          then leaf (pa + (v / 4096 * 4096 - a)) perm
          else entry_of m pgdir v)

first_page :
    (pgdir a pa perm : ℕ) (m m' : Memory)
    → a % 4096 ≡ 0
    → a < 2 ^ 32
    → Mapped m m' pgdir a (leaf pa perm)
    → MappedRange m m' pgdir a pa perm 1
first_page pgdir a pa perm m m' al la r = record {
  tree = r.tree;
  entries = λ v lv.
      r.entries v
      ∙ rw (same_page_lem a v la lv al) (elim (Bool-cases (leb a v && ltb v (a + 4096))) [
        | inl e ↦
            let i : pa ≡ pa + (v / 4096 * 4096 - a) = ground arith in rw e (ap (λ x. leaf x perm) i)
        | inr e ↦ rw e refl
      ]);
}

-- A page, and the range behind it.
join :
    (pgdir a pa perm pages : ℕ) (m m1 m' : Memory)
    → a % 4096 ≡ 0
    → MappedRange m m1 pgdir a pa perm 1
    → MappedRange m1 m' pgdir (a + 4096) (pa + 4096) perm pages
    → MappedRange m m' pgdir a pa perm (suc pages)
join pgdir a pa perm pages m m1 m' al r rest = record {
  tree = rest.tree;
  entries = λ v lv. rest.entries v lv ∙ elim (Bool-cases (leb (a + 4096) v)) [
    | inl far ↦
        let no : (leb a v && ltb v (a + 4096 * 1)) ≡ false = ground arith in
        let s : (ltb v (a + 4096 + 4096 * pages)) ≡ (leb a v && ltb v (a + 4096 * suc pages)) =
          ground arith in
        let i : pa + 4096 + (v / 4096 * 4096 - (a + 4096)) ≡ pa + (v / 4096 * 4096 - a) =
          ground arith in
        rw (far, s, i, r.entries v lv, no) refl
    | inr near ↦
        let s : (leb a v && ltb v (a + 4096 * 1)) ≡ (leb a v && ltb v (a + 4096 * suc pages)) =
          ground arith in
        rw (near, r.entries v lv, s) refl
  ];
}

end_cases : (e : MapEnd) → (e ≡ mapped) ⊎ ((e ≡ no_memory) ⊎ (e ≡ remap))
end_cases mapped = inl refl
end_cases no_memory = inr (inl refl)
end_cases remap = inr (inr refl)

-- The loop, from a page address on.
map_from-MappedRange :
    (more pgdir a pa perm : ℕ) (m m' : Memory)
    → IsTree m pgdir
    → a % 4096 ≡ 0
    → a + 4096 * more < 2 ^ 32
    → map_from more pgdir a pa perm m ≡ (m', mapped)
    → MappedRange m m' pgdir a pa perm (suc more)
unfolding map_from
map_from-MappedRange zero pgdir a pa perm m m' tree al la e =
    first_page pgdir a pa perm m m' al (omega arith) (map_page-Mapped pgdir a pa perm m m' tree e)
map_from-MappedRange (suc more) pgdir a pa perm m m' tree al la e =
    let m1 : Memory = (map_page pgdir a pa perm m).0 in
    elim (end_cases (map_page pgdir a pa perm m).1) [
      | inl q ↦
          let r = map_page-Mapped pgdir a pa perm m m1 tree (ap (λ x. (m1, x)) q) in
          let step : map_from more pgdir ((a + 4096) % 2 ^ 32) (pa + 4096) perm m1 ≡ (m', mapped) =
            rw (map_from, q) at e in
          let next : (a + 4096) % 2 ^ 32 ≡ a + 4096 = omega arith in
          join pgdir a pa perm (suc more) m m1 m' al
            (first_page pgdir a pa perm m m1 al (omega arith) r)
            (map_from-MappedRange more pgdir (a + 4096) (pa + 4096) perm m1 m' r.tree (omega arith)
              (omega arith)
              (subst (λ x. map_from more pgdir x (pa + 4096) perm m1 ≡ (m', mapped)) next step))
      | inr (inl q) ↦ cc (sym q ∙ ap (λ r. r.1) (rw (map_from, q) at e))
      | inr (inr q) ↦ cc (sym q ∙ ap (λ r. r.1) (rw (map_from, q) at e))
    ]

-- The number of pages that a range of bytes touches.
abbrev pub pages_of : (va size : ℕ) → ℕ
pages_of va size = (va + size - 1) / 4096 - va / 4096

rounds :
    (va size : ℕ)
    → 0 < size
    → va + size ≤ 2 ^ 32
    → (pgrounddown ((va + size + 2 ^ 32 - 1) % 2 ^ 32) + 2 ^ 32 - pgrounddown va) % 2 ^ 32 / 4096
      ≡ pages_of va size
rounds va size pos_size fits = omega arith

-- Where `mappages` maps a range of bytes that is not empty and ends by 2 ^ 32, the tree is well-formed
-- again, each address of a page that the range touches has the entry of its physical page, in order
-- from `pa` on, and every other address has the entry that it had.
pub mappages-MappedRange :
    (pgdir va size pa perm : ℕ) (m m' : Memory)
    → IsTree m pgdir
    → 0 < size
    → va + size ≤ 2 ^ 32
    → mappages pgdir va size pa perm m ≡ (m', mapped)
    → MappedRange m m' pgdir (pgrounddown va) pa perm (suc (pages_of va size))
unfolding mappages
mappages-MappedRange pgdir va size pa perm m m' tree pos_size fits e =
    map_from-MappedRange (pages_of va size) pgdir (pgrounddown va) pa perm m m' tree (omega arith)
      (omega arith)
      (subst (λ n. map_from n pgdir (pgrounddown va) pa perm m ≡ (m', mapped))
        (rounds va size pos_size fits) e)
