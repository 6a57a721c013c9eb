-- ===== src/Args/Within.antt =====
-- Which user memory the fetching of arguments reads.
use col.Base.{
  Option-cases, Bool-cases, arith, ap, inl, inr, some, refl, suc, zero, ℕ, ℤ, leb, ltb, ◌%◌, ◌||◌,
  ◌+◌, ◌-◌, ◌*◌, ◌<◌, ◌^◌, ◌≡◌, ◌≤◌,
}
use col.Proc.{Proc}
use col.Args.{fetchint, find_nul, fetchstr, argint, argptr, argstr, argfd}

-- Two memories with the same bytes below the process's size.
module _ (mem other : ℕ → ℕ) (p : Proc) (le : p.sz ≤ 2 ^ 31)
    (same : (a : ℕ) → a < p.sz → mem a ≡ other a) where
  same_int : (a : ℕ) → fetchint p.sz mem a ≡ fetchint p.sz other a
  unfolding fetchint
  same_int a = elim (Bool-cases (leb p.sz a || ltb p.sz ((a + 4) % 2 ^ 32))) [
    | inl out ↦ rw out refl
    | inr inside ↦ rw inside (
        ap some (
          omega (
            arith,
            same a (ground arith),
            same (a + 1) (ground arith),
            same (a + 2) (ground arith),
            same (a + 3) (ground arith),
          )))
  ]

  same_nul : (left s n : ℕ) → s + left ≤ p.sz → find_nul left mem s n ≡ find_nul left other s n
  unfolding find_nul
  same_nul zero s n fits = refl
  same_nul (suc left) s n fits =
      rw (same s (omega arith), same_nul left (s + 1) (n + 1) (omega arith)) refl

  same_str : (a : ℕ) → fetchstr p.sz mem a ≡ fetchstr p.sz other a
  unfolding fetchstr
  same_str a = elim (Bool-cases (leb p.sz a)) [
    | inl out ↦ rw out refl
    | inr inside ↦ rw inside (same_nul (p.sz - a) a 0 (ground arith))
  ]

  same_arg : (n : ℕ) → argint p mem n ≡ argint p other n
  unfolding argint
  same_arg n = same_int ((p.tf.esp + 4 + 4 * n) % 2 ^ 32)

  -- For a process below the kernel's half of the addresses, an integer, pointer, string or descriptor
  -- argument depends on no byte of memory at or above its size.
  pub args_within :
      (n : ℕ) (size : ℤ)
      → (argint p mem n ≡ argint p other n)
        × (argptr p mem n size ≡ argptr p other n size)
        × (argstr p mem n ≡ argstr p other n)
        × (argfd p mem n ≡ argfd p other n)
  unfolding argptr argstr argfd
  args_within n size = (
    same_arg n,
    rw (argptr, same_arg n) refl,
    elim (Option-cases (argint p other n)) [
      | inl bad ↦ rw (argstr, same_arg n, bad) refl
      | inr (a, got) ↦ rw (argstr, same_arg n, got, same_str a) refl
    ],
    rw (argfd, same_arg n) refl,
  )
