-- ===== src/Paging/Tests.antt =====
-- The theorems on page tables at an empty directory.
use col.Base.{[], ◌∷◌, arith, refl}
use col.Paging.{Memory, mappages, map_from, map_page, walkpgdir, put_entry_at, clear_page, leaf}
use col.Paging.Tree.{IsTree}
use col.Paging.Ranges.{MappedRange, mappages-MappedRange}

-- The directory is the page at 8192, and two pages are free.
abbrev empty : Memory
empty = record { words = λ page i. 0; free = 20480 ∷ 24576 ∷ [] }

empty-IsTree : IsTree empty 8192
empty-IsTree = record {
  distinct = λ i j pi pj e. cc;
  apart = λ i p e. cc;
  free_apart = λ x f e. ground arith;
  free_unused = λ x i f p e. cc;
  free_whole = λ x f. ground arith;
  no_twice = (λ x f e. ground arith, (λ x f e. f, tt));
}

-- After 5000 bytes from 4100 on are mapped, which touch two pages.
abbrev two_pages : Memory
two_pages = put_entry_at 20480 2 (leaf 69632 6) (
    put_entry_at 20480 1 (leaf 65536 6)
      (put_entry_at 8192 0 20487 (clear_page 20480 (record empty { free = 24576 ∷ [] }))))

mappages-MappedRange_example : MappedRange empty two_pages 8192 4096 65536 6 2
unfolding mappages map_from map_page walkpgdir
mappages-MappedRange_example =
    mappages-MappedRange 8192 4100 5000 65536 6 empty two_pages empty-IsTree (omega arith)
      (omega arith) refl
