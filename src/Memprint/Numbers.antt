-- ===== src/Memprint/Numbers.antt =====
-- The numbers of the memory printer's report.
use native.Mathlib.Nat.{pow-suc}
use col.Base.{
  append-nil, sym, List, [], arith, if◌then◌else◌, leb, length, suc, zero, ℕ, ◌+◌, ◌==◌, ◌≡◌, ◌≤◌,
  ◌<◌, ◌^◌, ◌/◌, ◌%◌, ◌∷◌, refl, ap, ap₂, true, false, ◌∙◌, get_or,
}
use col.Print.{lower_digits, put_digits, printint, fill_buf, write_back, atoi}
use col.Print.Numbers.{IsDecimal-lower, atoi-printint}
use col.Paging.{Memory}
use col.Memprint.{num_digits, print_num, collect_proc_pages, Proc}

num_digits-put_digits :
    (fuel other num : ℕ)
    → fuel ≤ other
    → num < 10 ^ suc fuel
    → num_digits (suc fuel) num ≡ put_digits (suc other) lower_digits num 10
unfolding num_digits put_digits
num_digits-put_digits zero other num le lt =
    let last : num / 10 ≡ 0 = omega arith in
    let digit : b'0' + num % 10 ≡ get_or lower_digits (num % 10) 0 =
      omega (arith, IsDecimal-lower (num % 10) (omega arith)) in
    rw last (ap (λ d. d ∷ []) digit)
num_digits-put_digits (suc fuel) (suc other) num le lt =
    let below : num / 10 < 10 ^ suc fuel = omega (arith, pow-suc 10 (suc fuel)) in
    let digit : b'0' + num % 10 ≡ get_or lower_digits (num % 10) 0 =
      omega (arith, IsDecimal-lower (num % 10) (omega arith)) in
    ap₂ ◌∷◌ digit (
      ap (λ r. if num / 10 == 0 then [] else r)
        (num_digits-put_digits fuel other (num / 10) (omega arith) below))
num_digits-put_digits (suc fuel) zero num le lt = absurd (omega arith)

-- For a number below 2 ^ 31 the loop of print_num prints what the kernel's printint prints for it in
-- decimal, and atoi reads it back.
pub print_num-printint :
    (num : ℕ)
    → num < 2 ^ 31
    → (print_num num ≡ printint lower_digits num 10 true) × (atoi (print_num num) ≡ num)
unfolding print_num printint fill_buf
print_num-printint num lt =
    let small : leb (2 ^ 31) num ≡ false = ground arith in
    let same : print_num num ≡ printint lower_digits num 10 true = rw small (
      ap (λ buf. write_back buf []) (num_digits-put_digits 9 31 num (omega arith) (omega arith))) in
    (
      same,
      ap atoi (same ∙ sym (append-nil (printint lower_digits num 10 true)))
          ∙ atoi-printint lower_digits num [] IsDecimal-lower (omega arith) tt
          ∙ rw small refl,
    )

-- The entries that are written fit in `pp_info`, which has one for each entry of the process table.
length-collect_proc_pages :
    (ptable : List Proc) (m : Memory) → length (collect_proc_pages ptable m) ≤ length ptable
unfolding collect_proc_pages
length-collect_proc_pages [] m = omega arith
length-collect_proc_pages (p ∷ ptable) m = ground (arith, length-collect_proc_pages ptable m)
