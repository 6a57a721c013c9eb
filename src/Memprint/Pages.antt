-- ===== src/Memprint/Pages.antt =====
-- What `countphysicalpages` counts.
use col.Paging.User.Dealloc.{deallocuvm-Unmapped}
use col.Paging.User.{deallocuvm}
use col.Pages.{kernbase}
use col.Paging.User.Space.{IsSpace}
use col.Base.{
  some, arith, if◌then◌else◌, suc, zero, ℕ, ◌+◌, ◌*◌, ◌≡◌, ◌≤◌, ◌<◌, refl, false, sym, ◌∙◌,
  Bool-cases, inl, inr,
}
use col.Paging.{Memory, is_present, pte_addr, pdx, ptx}
use col.Paging.Tree.{entry_of}
use col.Memprint.{count_entries, count_tables, countphysicalpages}

-- The number of mapped pages among the first `n` pages of an address space.
abbrev pub one_if_mapped : Memory → (pgdir page : ℕ) → ℕ
one_if_mapped m pgdir page = if is_present (entry_of m pgdir (page * 4096)) then 1 else 0

pub mapped_pages : (n pgdir : ℕ) → Memory → ℕ
mapped_pages zero pgdir m = 0
mapped_pages (suc n) pgdir m = mapped_pages n pgdir m + one_if_mapped m pgdir n

-- The entries of table `i` below `j`.
abbrev below : (j i pgdir : ℕ) → Memory → ℕ
below j i pgdir m =
    if is_present (m.words pgdir i) then count_entries j (pte_addr (m.words pgdir i)) m else 0

entry_lem :
    (m : Memory) (pgdir i j : ℕ)
    → i < 1024
    → j < 1024
    → entry_of m pgdir ((i * 1024 + j) * 4096)
      ≡ (if is_present (m.words pgdir i) then m.words (pte_addr (m.words pgdir i)) j else 0)
entry_lem m pgdir i j li lj =
    let x : pdx ((i * 1024 + j) * 4096) ≡ i = omega arith in
    let y : ptx ((i * 1024 + j) * 4096) ≡ j = omega arith in rw (x, y) refl

one_more :
    (m : Memory) (pgdir i j : ℕ)
    → i < 1024
    → j < 1024
    → below (suc j) i pgdir m ≡ below j i pgdir m + one_if_mapped m pgdir (i * 1024 + j)
unfolding count_entries
one_more m pgdir i j li lj =
    rw (entry_lem m pgdir i j li lj)
      (elim (Bool-cases (is_present (m.words pgdir i))) [ inl p ↦ rw p refl | inr p ↦ rw p refl ])

part :
    (m : Memory) (pgdir i j : ℕ)
    → i < 1024
    → j ≤ 1024
    → mapped_pages (i * 1024) pgdir m ≡ count_tables i pgdir m
    → mapped_pages (i * 1024 + j) pgdir m ≡ count_tables i pgdir m + below j i pgdir m
unfolding mapped_pages count_entries
part m pgdir i zero li lj e =
    let q : i * 1024 + 0 ≡ i * 1024 = omega arith in
    rw q (
      e ∙ elim (Bool-cases (is_present (m.words pgdir i))) [
        | inl p ↦ rw p (omega arith)
        | inr p ↦ rw p (omega arith)
      ])
part m pgdir i (suc j) li lj e =
    let q : i * 1024 + suc j ≡ suc (i * 1024 + j) = omega arith in
    rw q (omega (arith, part m pgdir i j li (omega arith) e, one_more m pgdir i j li (omega arith)))

tables :
    (m : Memory) (pgdir i : ℕ) → i ≤ 1024 → mapped_pages (i * 1024) pgdir m ≡ count_tables i pgdir m
unfolding count_tables mapped_pages
tables m pgdir zero le = refl
tables m pgdir (suc i) le =
    let q : suc i * 1024 ≡ i * 1024 + 1024 = omega arith in
    rw q (part m pgdir i 1024 (omega arith) (omega arith) (tables m pgdir i (omega arith)))

-- What the two loops over the page tables count is the number of mapped pages in the user half of the
-- address space: of the 512 * 1024 page addresses below 2 ^ 31, those whose entry is present.
pub countphysicalpages-mapped_pages :
    (pgdir : ℕ) (m : Memory) → countphysicalpages pgdir m ≡ mapped_pages (512 * 1024) pgdir m
unfolding countphysicalpages
countphysicalpages-mapped_pages pgdir m = sym (tables m pgdir 512 (omega arith))

none_mapped :
    (n pgdir : ℕ) (m : Memory)
    → ((page : ℕ) → page < n → is_present (entry_of m pgdir (page * 4096)) ≡ false)
    → mapped_pages n pgdir m ≡ 0
unfolding mapped_pages
none_mapped zero pgdir m h = refl
none_mapped (suc n) pgdir m h =
    rw (none_mapped n pgdir m (λ page lt. h page (omega arith)), h n (omega arith)) refl

-- In an address space where no physical page has two uses, deallocuvm from the start of the kernel's
-- half down to 0 ends, and the memory printer then counts no page for the process.
pub deallocuvm-countphysicalpages :
    (kernel_end pgdir : ℕ) (m : Memory)
    → IsSpace kernel_end kernbase m pgdir
    → (m' : Memory) × (deallocuvm kernel_end pgdir kernbase 0 m ≡ some (m', 0))
      × (countphysicalpages pgdir m' ≡ 0)
deallocuvm-countphysicalpages kernel_end pgdir m s =
    let (m', e, u) =
      deallocuvm-Unmapped kernel_end kernbase kernbase 0 pgdir m s (omega arith) (omega arith)
        (omega arith) in
    (
      m',
      e,
      countphysicalpages-mapped_pages pgdir m'
          ∙ none_mapped (512 * 1024) pgdir m'
              (λ page lt. u.gone (page * 4096) (omega arith) (omega arith)),
    )
