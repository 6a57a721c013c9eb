-- ===== src/Paging/User.antt =====
-- The user part of an address space in xv6-public_2/vm.c: `deallocuvm`, `uva2ka` and `copyout`.
-- `kernel_end` is the linker's symbol `end`; a page freed is filled with 1s, but for its link.
pub mod Space
pub mod Unmapped
pub mod Dealloc
use col.Base.{
  [], List, Bool, Option, false, if◌then◌else◌, leb, ltb, none, some, suc, true, zero, ℕ, ℤ, ◌%◌,
  ◌*◌, ◌+◌, ◌-◌, ◌/◌, ◌==◌, ◌^◌, ◌∷◌,
}
use col.Pages.{is_bad, kernbase, pgroundup}
use col.Paging.{pdx, ptx, pte_addr, is_present, Memory, put_entry_at, walkpgdir}

-- `r->next` of the freed page: the address of the page that was first in the list, or 0.
abbrev pub next_free : List ℕ → ℕ
next_free [] = 0
next_free (pa ∷ pas) = (pa + kernbase) % 2 ^ 32

-- `kfree(P2V(pa))`, on the words of a page, which `memset` fills; `none` is its panic.
unfoldable pub kfree_page : (kernel_end pa : ℕ) → Memory → Option Memory
kfree_page kernel_end pa m =
    if is_bad kernel_end ((pa + kernbase) % 2 ^ 32)
    then none
    else some (record {
      words =
          λ x y. if x == pa then (if y == 0 then next_free m.free else 0x01010101) else m.words x y;
      free = pa ∷ m.free;
    })

-- `kfree(v); *pte = 0;` for the entry of `a` in `table`.
abbrev pub clear_entry : (table a : ℕ) → Option Memory → Option Memory
clear_entry table a none = none
clear_entry table a (some m) = some (put_entry_at table (ptx a) 0 m)

-- The rest of a round for the entry of `a`, where there is a table.
unfoldable pub release_entry : (kernel_end table a : ℕ) → Memory → Option Memory
release_entry kernel_end table a m =
    let e = m.words table (ptx a) in
    if is_present e
    then (if pte_addr e == 0
        then none
        else clear_entry table a (kfree_page kernel_end (pte_addr e) m))
    else some m

-- PGADDR(PDX(a) + 1, 0, 0) - PGSIZE, with the `a += PGSIZE` of the loop.
abbrev pub next_table : ℕ → ℕ
next_table a = (pdx a + 1) * 2 ^ 22 % 2 ^ 32

-- The loop from `a` on; `none` is a panic, or that the fuel ran out.
unfoldable pub dealloc_from : (fuel kernel_end pgdir a oldsz : ℕ) → Memory → Option Memory
dealloc_from zero kernel_end pgdir a oldsz m = none
dealloc_from (suc fuel) kernel_end pgdir a oldsz m =
    if ltb a oldsz
    then (elim (walkpgdir pgdir a false m).1 [
      | none ↦ dealloc_from fuel kernel_end pgdir (next_table a) oldsz m
      | some table ↦ elim (release_entry kernel_end table a m) [
        | none ↦ none
        | some m' ↦ dealloc_from fuel kernel_end pgdir ((a + 4096) % 2 ^ 32) oldsz m'
      ]
    ])
    else some m

-- The memory, and the size that is returned. There are at most 2 ^ 20 pages.
unfoldable pub deallocuvm : (kernel_end pgdir oldsz newsz : ℕ) → Memory → Option (Memory × ℕ)
deallocuvm kernel_end pgdir oldsz newsz m =
    if leb oldsz newsz
    then some (m, oldsz)
    else (elim (dealloc_from (suc (2 ^ 20)) kernel_end pgdir (pgroundup newsz) oldsz m) [
      | none ↦ none
      | some m' ↦ some (m', newsz)
    ])
