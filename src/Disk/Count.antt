-- ===== src/Disk/Count.antt =====
-- The number of free blocks.
use col.Base.{
  ==_iff, ==_ne, true, ap, arith, none, refl, sym, total, total_zero, total_drop, ℕ, ◌+◌, ◌-◌, ◌==◌,
  ◌∙◌, ◌≡◌,
}
use col.Disk.{Disk, bit, balloc}
use col.Disk.Blocks.{Allocated, balloc-none}

abbrev pub free_count : Disk → ℕ
free_count d = total (λ y. 1 - bit d y) d.size

-- An allocation takes one.
pub Allocated-free_count :
    (d d' : Disk) (x : ℕ) → Allocated d d' x → free_count d ≡ free_count d' + 1
Allocated-free_count d d' x a =
    let self : (x == x) ≡ true = (==_iff x x).1 refl in
    let at : 1 - bit d x ≡ 1 - bit d' x + 1 =
      let m : bit d' x ≡ 1 = a.marked x ∙ rw self refl in omega (arith, a.found.free) in
    total_drop (λ y. 1 - bit d y) (λ y. 1 - bit d' y) d.size x a.found.within.1 at
      (λ j ne. ap (λ b. 1 - b) (sym (a.marked j ∙ rw (==_ne j x ne) refl)))
    ∙ ap (λ n. total (λ y. 1 - bit d' y) n + 1) (sym a.size_eq)

-- And where it fails there is none.
pub balloc-none-free_count : (d : Disk) → balloc d ≡ none → free_count d ≡ 0
balloc-none-free_count d e =
    total_zero (λ y. 1 - bit d y) d.size (λ j lt. let u = (balloc-none d).0 e j lt in omega arith)
