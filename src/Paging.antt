-- ===== src/Paging.antt =====
-- Page tables in xv6-public_2/vm.c: `walkpgdir` and `mappages`. Physical memory is seen as its page-table
-- words, by the address of a page and the index of the word; `free` has the pages that `kalloc` gives.
pub mod Tree
pub mod Walk
pub mod Maps
pub mod Ranges
pub mod User
mod Tests
use Prim.Native.Nat.{bit_or}
use col.Base.{
  Bool, List, Option, [], ◌∷◌, false, if◌then◌else◌, none, some, suc, true, zero, ℕ, ◌%◌, ◌*◌, ◌+◌,
  ◌-◌, ◌/◌, ◌==◌, ◌&&◌, ◌^◌,
}

-- PDX, PTX, PTE_ADDR and PTE_P.
abbrev pub pdx : ℕ → ℕ
pdx va = va / 2 ^ 22 % 1024

abbrev pub ptx : ℕ → ℕ
ptx va = va / 2 ^ 12 % 1024

abbrev pub pte_addr : ℕ → ℕ
pte_addr e = e / 4096 * 4096

abbrev pub is_present : ℕ → Bool
is_present e = e % 2 == 1

abbrev pub pgrounddown : ℕ → ℕ
pgrounddown a = a / 4096 * 4096

pub record Memory : Type 0 where
  pub words : ℕ → ℕ → ℕ
  pub free : List ℕ

abbrev pub put_entry_at : (page i e : ℕ) → Memory → Memory
put_entry_at page i e m = record m { words = λ x y. if x == page && y == i then e else m.words x y }

-- `memset(pgtab, 0, PGSIZE)`
abbrev pub clear_page : ℕ → Memory → Memory
clear_page page m = record m { words = λ x y. if x == page then 0 else m.words x y }

-- A new page table for the directory entry `i`, by the pages that are free.
abbrev pub new_table : List ℕ → (pgdir i : ℕ) → Memory → Memory × Option ℕ
new_table [] pgdir i m = (m, none)
new_table (page ∷ rest) pgdir i m =
    -- V2P(pgtab) | PTE_P | PTE_W | PTE_U of a page address
    (put_entry_at pgdir i (page + 7) (clear_page page (record m { free = rest })), some page)

-- The table that has the entry for `va`, which is at the index `ptx va` there; `none` for 0.
unfoldable pub walkpgdir : (pgdir va : ℕ) → Bool → Memory → Memory × Option ℕ
walkpgdir pgdir va alloc m =
    if is_present (m.words pgdir (pdx va))
    then (m, some (pte_addr (m.words pgdir (pdx va))))
    else if alloc
    then new_table m.free pgdir (pdx va) m
    else (m, none)

-- How `mappages` ends; `remap` is its panic.
pub data MapEnd : Type 0 where
  mapped no_memory remap : MapEnd

-- `pa | perm | PTE_P`
abbrev pub leaf : (pa perm : ℕ) → ℕ
leaf pa perm = bit_or (bit_or pa perm) 1

-- The rest of a round after the walk.
abbrev pub write_leaf : (a pa perm : ℕ) → Memory × Option ℕ → Memory × MapEnd
write_leaf a pa perm (m, none) = (m, no_memory)
write_leaf a pa perm (m, some table) =
    if is_present (m.words table (ptx a))
    then (m, remap)
    else (put_entry_at table (ptx a) (leaf pa perm) m, mapped)

-- One round of the loop.
unfoldable pub map_page : (pgdir a pa perm : ℕ) → Memory → Memory × MapEnd
map_page pgdir a pa perm m = write_leaf a pa perm (walkpgdir pgdir a true m)

-- The loop for `more` pages behind the first; it stops at the first that cannot be mapped.
unfoldable pub map_from : (more pgdir a pa perm : ℕ) → Memory → Memory × MapEnd
map_from zero pgdir a pa perm m = map_page pgdir a pa perm m
map_from (suc more) pgdir a pa perm m = elim (map_page pgdir a pa perm m).1 [
  | no_memory ↦ map_page pgdir a pa perm m
  | remap ↦ map_page pgdir a pa perm m
  | mapped ↦
      map_from more pgdir ((a + 4096) % 2 ^ 32) (pa + 4096) perm (map_page pgdir a pa perm m).0
]

-- `last` is reached after as many rounds as there are pages from `a` to it.
unfoldable pub mappages : (pgdir va size pa perm : ℕ) → Memory → Memory × MapEnd
mappages pgdir va size pa perm m =
    let a = pgrounddown va in
    let last = pgrounddown ((va + size + 2 ^ 32 - 1) % 2 ^ 32) in
    map_from ((last + 2 ^ 32 - a) % 2 ^ 32 / 4096) pgdir a pa perm m
