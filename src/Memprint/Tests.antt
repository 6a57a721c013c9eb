-- ===== src/Memprint/Tests.antt =====
-- The memory printer at concrete page tables.
use native.Mathlib.Decide.{ℕ_discrete}
use col.Pages.{pgroundup}
use col.Base.{
  ◌*◌, ap, ==_ne, ◌<◌, ◌⊎◌, sym, ◌∙◌, inl, inr, ℕ, [], arith, refl, ◌≡◌, some, if◌then◌else◌, ◌&&◌,
  ◌==◌, true,
}
use col.Paging.{pte_addr, ptx, is_present, pdx, Memory}
use col.Paging.User.{deallocuvm}
use col.Paging.User.Space.{page_of, IsMapped, IsSpace}
use col.Paging.User.Unmapped.{Unmapped}
use col.Paging.User.Dealloc.{deallocuvm-Unmapped}
use col.Memprint.{pte_addr, is_present, countphysicalpages}
use col.Memprint.Pages.{countphysicalpages-mapped_pages, mapped_pages}

-- The directory is the page at 8192, its first table that at 12288, and two user pages are mapped.
abbrev small_space : Memory
small_space = record {
  words = λ x y.
      if x == 8192 && y == 0
      then 12295
      else if x == 12288 && y == 0
      then 0x200007
      else if x == 12288 && y == 1
      then 0x201007
      else 0;
  free = [];
}

directory_entry : (i : ℕ) → is_present (small_space.words 8192 i) ≡ true → i ≡ 0
directory_entry i p = ground arith

-- The two pages.
abbrev IsEither : ℕ → Type 0
IsEither v =
    ((pdx v ≡ 0) × (ptx v ≡ 0) × (page_of small_space 8192 v ≡ 0x200000))
    ⊎ ((pdx v ≡ 0) × (ptx v ≡ 1) × (page_of small_space 8192 v ≡ 0x201000))

mapped_page : (v : ℕ) → IsMapped small_space 8192 v → IsEither v
mapped_page v p =
    let first : pdx v ≡ 0 = ground arith in
    elim (ℕ_discrete (ptx v) 0) [
      | yes e ↦ inl (first, e, rw (first, e) refl)
      | no ne ↦
          let second : ptx v ≡ 1 = elim (ℕ_discrete (ptx v) 1) [
            | yes e ↦ e
            | no ne' ↦ cc (rw (first, ==_ne (ptx v) 0 ne, ==_ne (ptx v) 1 ne') at p)
          ] in
          inr (first, second, rw (first, second) refl)
    ]

table_addr :
    (i : ℕ)
    → is_present (small_space.words 8192 i) ≡ true
    → pte_addr (small_space.words 8192 i) ≡ 12288
table_addr i p = ap (λ k. pte_addr (small_space.words 8192 k)) (directory_entry i p)

-- A page that is one of the two is no other.
apart : (v x : ℕ) → IsMapped small_space 8192 v → page_of small_space 8192 v ≡ x → x < 0x200000 → ⊥
apart v x p e lt = elim (mapped_page v p) [
  | inl (_, _, q) ↦ absurd (omega arith)
  | inr (_, _, q) ↦ absurd (omega arith)
]

small_space-IsSpace : IsSpace 0x80100000 0x80000000 small_space 8192
small_space-IsSpace = record {
  tree = record {
    distinct = λ i j pi pj e. directory_entry i pi ∙ sym (directory_entry j pj);
    apart = λ i p e. cc (sym (table_addr i p) ∙ e);
    free_apart = λ x f e. f;
    free_unused = λ x i f p e. f;
    free_whole = λ x f. absurd f;
    no_twice = tt;
  };
  usable = λ v l p. elim (mapped_page v p) [
    | inl (_, _, q) ↦ rw q (omega arith, refl)
    | inr (_, _, q) ↦ rw q (omega arith, refl)
  ];
  not_directory = λ v l p e. apart v 8192 p e (omega arith);
  not_table = λ v i l p q e. apart v 12288 p (e ∙ table_addr i q) (omega arith);
  not_free = λ v l p f. f;
  alone = λ v w lv lw p q e. elim (mapped_page v p) [
    | inl (a, b, x) ↦ elim (mapped_page w q) [
      | inl (c, d, y) ↦ rw (a, b, c, d) refl
      | inr (c, d, y) ↦ absurd (omega arith)
    ]
    | inr (a, b, x) ↦ elim (mapped_page w q) [
      | inl (c, d, y) ↦ absurd (omega arith)
      | inr (c, d, y) ↦ rw (a, b, c, d) refl
    ]
  ];
}

deallocuvm-Unmapped_example :
    (m' : Memory) × (deallocuvm 0x80100000 8192 8192 5000 small_space ≡ some (m', 5000))
    × Unmapped 0x80100000 0x80000000 (pgroundup 5000) 8192 8192 small_space m'
deallocuvm-Unmapped_example =
    deallocuvm-Unmapped 0x80100000 0x80000000 8192 5000 8192 small_space small_space-IsSpace
      (omega arith) (omega arith) (omega arith)

countphysicalpages-mapped_pages_example :
    countphysicalpages 8192 small_space ≡ mapped_pages (512 * 1024) 8192 small_space
countphysicalpages-mapped_pages_example = countphysicalpages-mapped_pages 8192 small_space
