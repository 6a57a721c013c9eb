-- ===== src/Args/Fetch.antt =====
-- `fetchstr`, `argptr` and the arguments of `sys_read` and `sys_write`.
use col.Base.{
  ==_iff, ==_ne, Option-cases, Bool-cases, arith, ap, false, true, inl, inr, some, some-injective,
  pos, negsuc, refl, sym, subst, suc, zero, ℕ, ℤ, get_or, leb, ◌||◌, ◌+◌, ◌-◌, ◌<◌, ◌==◌, ◌↔◌, ◌∙◌,
  ◌^◌, ◌≡◌, ◌≢◌, ◌≤◌, ◌%◌, ◌*◌,
}
use col.Proc.{Proc}
use col.Args.{
  nofile, fetchstr, find_nul, argint, argptr, check_ptr, check_fd, argfd, io_args, signed, fetchint,
  word_of,
}

-- Argument `n`: the word that far above the return address on the user's stack.
abbrev pub stack_word : Proc → (ℕ → ℕ) → ℕ → ℕ
stack_word p mem n = word_of mem ((p.tf.esp + 4 + 4 * n) % 2 ^ 32)

-- The first zero byte from `s` on is at `s + n`, below `stop`.
pub record IsString (mem : ℕ → ℕ) (s n stop : ℕ) : Type 0 where
  pub below : s + n < stop
  pub ends : mem (s + n) ≡ 0
  pub goes_on : (i : ℕ) → i < n → mem (s + i) ≢ 0

find_nul-IsString :
    (left : ℕ) (mem : ℕ → ℕ) (s n m : ℕ)
    → find_nul left mem s n ≡ some m
    → (n ≤ m) × IsString mem s (m - n) (s + left)
unfolding find_nul
find_nul-IsString zero mem s n m e = cc
find_nul-IsString (suc left) mem s n m e = elim (Bool-cases (mem s == 0)) [
  | inl z ↦
      let q : n ≡ m = some-injective n m (rw z at e) in
      let here : s + (m - n) ≡ s = omega arith in
      (
        omega arith,
        record {
          below = omega arith;
          ends = ap mem here ∙ ground arith;
          goes_on = λ i lt. absurd (omega arith);
        },
      )
  | inr nz ↦
      let (le, r) = find_nul-IsString left mem (s + 1) (n + 1) m (rw nz at e) in
      let here : s + (m - n) ≡ s + 1 + (m - (n + 1)) = omega arith in
      (
        omega arith,
        record {
          below = let b = r.below in omega arith;
          ends = ap mem here ∙ r.ends;
          goes_on = λ i lt q. elim (Bool-cases (i == 0)) [
            | inl first ↦ let at : mem (s + i) ≡ mem s = ap mem (ground arith) in ground arith
            | inr later ↦
                let at : s + 1 + (i - 1) ≡ s + i = ground arith in
                r.goes_on (i - 1) (ground arith) (ap mem at ∙ q)
          ];
        },
      )
]

IsString-find_nul :
    (left : ℕ) (mem : ℕ → ℕ) (s n m : ℕ)
    → IsString mem s m (s + left)
    → find_nul left mem s n ≡ some (n + m)
unfolding find_nul
IsString-find_nul zero mem s n m h = absurd (let b = h.below in omega arith)
IsString-find_nul (suc left) mem s n m h = elim (Bool-cases (m == 0)) [
  | inl z ↦
      let at : s + m ≡ s = ground arith in
      let ends : (mem s == 0) ≡ true = (==_iff (mem s) 0).1 (ap mem (sym at) ∙ h.ends) in
      let same : n ≡ n + m = ground arith in rw ends (ap some same)
  | inr nz ↦
      let at : s + 0 ≡ s = omega arith in
      let on : (mem s == 0) ≡ false =
        ==_ne (mem s) 0 (λ q. h.goes_on 0 (ground arith) (ap mem at ∙ q)) in
      let next : s + 1 + (m - 1) ≡ s + m = ground arith in
      let tail : IsString mem (s + 1) (m - 1) (s + 1 + left) = record {
        below = let b = h.below in ground arith;
        ends = ap mem next ∙ h.ends;
        goes_on = λ i lt q.
            let j : s + (i + 1) ≡ s + 1 + i = omega arith in
            h.goes_on (i + 1) (ground arith) (ap mem j ∙ q);
      } in
      let same : n + 1 + (m - 1) ≡ n + m = ground arith in
      rw on (IsString-find_nul left mem (s + 1) (n + 1) (m - 1) tail ∙ ap some same)
]

-- `fetchstr` answers `n` exactly when the string at the address ends, `n` bytes on, within the
-- process's memory.
pub fetchstr-IsString :
    (sz : ℕ) (mem : ℕ → ℕ) (addr n : ℕ) → (fetchstr sz mem addr ≡ some n) ↔ IsString mem addr n sz
unfolding fetchstr
fetchstr-IsString sz mem addr n = elim (Bool-cases (leb sz addr)) [
  | inl out ↦ (λ e. cc (rw out at e), λ h. absurd (let b = h.below in ground arith))
  | inr inside ↦
      let stop : addr + (sz - addr) ≡ sz = ground arith in
      rw inside (
        λ e.
            let whole : n - 0 ≡ n = omega arith in
            subst (λ m. IsString mem addr m sz) whole
              (subst (IsString mem addr (n - 0)) stop
                (find_nul-IsString (sz - addr) mem addr 0 n e).1),
        λ h.
            let same : 0 + n ≡ n = omega arith in
            IsString-find_nul (sz - addr) mem addr 0 n (subst (IsString mem addr n) (sym stop) h)
            ∙ ap some same,
      )
]

check_ptr_lem :
    (sz : ℕ) (size : ℤ) (i a : ℕ)
    → sz ≤ 2 ^ 31
    → ((k : ℕ) → size ≡ pos k → k < 2 ^ 31)
    → check_ptr sz size i ≡ some a
    → (a ≡ i) × ((k : ℕ) × (size ≡ pos k) × (a < sz) × (a + k ≤ sz))
check_ptr_lem sz (negsuc k) i a le small e = cc
check_ptr_lem sz (pos k) i a le small e =
    let h = small k refl in (ground arith, (k, refl, ground arith, ground arith))

signed_small : (w k : ℕ) → signed w ≡ pos k → k < 2 ^ 31
signed_small w k e = ground arith

check_fd_lem :
    (p : Proc) (w : ℤ) (fd f : ℕ)
    → check_fd p w ≡ some (fd, f)
    → (w ≡ pos fd) × (fd < nofile) × (get_or p.ofile fd 0 ≡ f) × (f ≢ 0)
check_fd_lem p (negsuc k) fd f e = cc
check_fd_lem p (pos i) fd f e = elim (Bool-cases (leb nofile i || get_or p.ofile i 0 == 0)) [
  | inl bad ↦ cc (rw bad at e)
  | inr ok ↦
      let h : (pos i ≡ pos i)
          × (i < nofile)
          × (get_or p.ofile i 0 ≡ get_or p.ofile i 0)
          × (get_or p.ofile i 0 ≢ 0) =
        (refl, ground arith, refl, λ z. ground arith) in
      let q : some (i, get_or p.ofile i 0) ≡ some (fd, f) = rw ok at e in
      subst
        (λ (r : ℕ × ℕ).
          (pos i ≡ pos r.0) × (r.0 < nofile) × (get_or p.ofile r.0 0 ≡ r.1) × (r.1 ≢ 0))
        (some-injective _ _ q) h
]

-- A word that is accepted as an argument is the one on the stack.
argint_lem : (p : Proc) (mem : ℕ → ℕ) (n w : ℕ) → argint p mem n ≡ some w → w ≡ stack_word p mem n
unfolding argint fetchint
argint_lem p mem n w e = ground arith

signed_pos : (w k : ℕ) → signed w ≡ pos k → w ≡ k
signed_pos w k e = ground arith

-- What a descriptor argument stands for.
pub argfd_lem :
    (p : Proc) (mem : ℕ → ℕ) (n fd f : ℕ)
    → argfd p mem n ≡ some (fd, f)
    → (fd ≡ stack_word p mem n) × (fd < nofile) × (get_or p.ofile fd 0 ≡ f) × (f ≢ 0)
unfolding argfd
argfd_lem p mem n fd f e = elim (Option-cases (argint p mem n)) [
  | inl bad ↦ cc (rw (argfd, bad) at e)
  | inr (w, got) ↦
      let (is, lt, there, nonzero) = check_fd_lem p (signed w) fd f (rw (argfd, got) at e) in
      (sym (signed_pos w fd is) ∙ argint_lem p mem n w got, lt, there, nonzero)
]

argptr_lem :
    (p : Proc) (mem : ℕ → ℕ) (n w a : ℕ)
    → p.sz ≤ 2 ^ 31
    → argptr p mem n (signed w) ≡ some a
    → (a ≡ stack_word p mem n) × ((k : ℕ) × (signed w ≡ pos k) × (a < p.sz) × (a + k ≤ p.sz))
unfolding argptr
argptr_lem p mem n w a le e = elim (Option-cases (argint p mem n)) [
  | inl bad ↦ cc (rw (argptr, bad) at e)
  | inr (i, got) ↦
      let (same, fits) =
        check_ptr_lem p.sz (signed w) i a le (signed_small w) (rw (argptr, got) at e) in
      (same ∙ argint_lem p mem n i got, fits)
]

-- Of an accepted `read` or `write` of a process below the kernel's half of the addresses, the
-- descriptor is the word of argument 0 on the user's stack, and the file is the one open there. The count
-- is argument 2, as an `int`, and is not negative. The buffer is at argument 1, and lies with all its
-- bytes within the process's memory.
pub io_args_lem :
    (p : Proc) (mem : ℕ → ℕ) (f a : ℕ) (n : ℤ)
    → p.sz ≤ 2 ^ 31
    → io_args p mem ≡ some (f, n, a)
    → ((stack_word p mem 0 < nofile) × (get_or p.ofile (stack_word p mem 0) 0 ≡ f) × (f ≢ 0))
      × (n ≡ signed (stack_word p mem 2))
      × (a ≡ stack_word p mem 1)
      × ((k : ℕ) × (n ≡ pos k) × (a < p.sz) × (a + k ≤ p.sz))
unfolding io_args
io_args_lem p mem f a n le e = elim (Option-cases (argfd p mem 0)) [
  | inl bad ↦ cc (rw (io_args, bad) at e)
  | inr ((fd, g), got) ↦ elim (Option-cases (argint p mem 2)) [
    | inl bad ↦ cc (rw (io_args, got, bad) at e)
    | inr (w, count) ↦ elim (Option-cases (argptr p mem 1 (signed w))) [
      | inl bad ↦ cc (rw (io_args, got, count, bad) at e)
      | inr (b, ptr) ↦
          let q : some (g, signed w, b) ≡ some (f, n, a) = rw (io_args, got, count, ptr) at e in
          let (is_fd, lt, there, nonzero) = argfd_lem p mem 0 fd g got in
          let (at, fits) = argptr_lem p mem 1 w b le ptr in
          subst
            (λ (t : ℕ × ℤ × ℕ).
              ((stack_word p mem 0 < nofile)
                × (get_or p.ofile (stack_word p mem 0) 0 ≡ t.0)
                × (t.0 ≢ 0))
              × (t.1 ≡ signed (stack_word p mem 2))
              × (t.2 ≡ stack_word p mem 1)
              × ((j : ℕ) × (t.1 ≡ pos j) × (t.2 < p.sz) × (t.2 + j ≤ p.sz)))
            (some-injective _ _ q)
            (
              subst (λ i. (i < nofile) × (get_or p.ofile i 0 ≡ g) × (g ≢ 0)) is_fd
                  (lt, there, nonzero),
              ap signed (argint_lem p mem 2 w count),
              at,
              fits,
            )
    ]
  ]
]
