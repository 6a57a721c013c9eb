-- ===== src/Paging/Tree.antt =====
-- What a page table maps, and when it is well-formed.
use col.Base.{List, [], ◌∷◌, true, false, refl, if◌then◌else◌, ℕ, ◌%◌, ◌≡◌, ◌≢◌, ◌⊎◌}
use col.Paging.{pdx, ptx, pte_addr, is_present, Memory}

-- The entry for a virtual address, 0 where it has no table.
abbrev pub entry_of : Memory → (pgdir va : ℕ) → ℕ
entry_of m pgdir va =
    if is_present (m.words pgdir (pdx va))
    then m.words (pte_addr (m.words pgdir (pdx va))) (ptx va)
    else 0

pub entry_present :
    (m : Memory) (pgdir va e : ℕ)
    → m.words pgdir (pdx va) ≡ e
    → is_present e ≡ true
    → entry_of m pgdir va ≡ m.words (pte_addr e) (ptx va)
entry_present m pgdir va e q p = rw (q, p) refl

pub entry_absent :
    (m : Memory) (pgdir va e : ℕ)
    → m.words pgdir (pdx va) ≡ e
    → is_present e ≡ false
    → entry_of m pgdir va ≡ 0
entry_absent m pgdir va e q p = rw (q, p) refl

abbrev pub IsFree : List ℕ → ℕ → Type 0
IsFree [] x = ⊥
IsFree (p ∷ ps) x = (x ≡ p) ⊎ IsFree ps x

abbrev pub NoTwice : List ℕ → Type 0
NoTwice [] = Unit
NoTwice (p ∷ ps) = ((x : ℕ) → IsFree ps x → x ≢ p) × NoTwice ps

-- The tables of a directory are different pages, none of them is the directory, and free pages are
-- whole pages and neither.
pub record IsTree (m : Memory) (pgdir : ℕ) : Type 0 where
  pub distinct :
      (i j : ℕ)
      → is_present (m.words pgdir i) ≡ true
      → is_present (m.words pgdir j) ≡ true
      → pte_addr (m.words pgdir i) ≡ pte_addr (m.words pgdir j)
      → i ≡ j
  pub apart : (i : ℕ) → is_present (m.words pgdir i) ≡ true → pte_addr (m.words pgdir i) ≢ pgdir
  pub free_apart : (x : ℕ) → IsFree m.free x → x ≢ pgdir
  pub free_unused :
      (x i : ℕ)
      → IsFree m.free x
      → is_present (m.words pgdir i) ≡ true
      → pte_addr (m.words pgdir i) ≢ x
  pub free_whole : (x : ℕ) → IsFree m.free x → x % 4096 ≡ 0
  pub no_twice : NoTwice m.free
