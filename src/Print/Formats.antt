-- ===== src/Print/Formats.antt =====
-- `printf` and `cprintf` beside each other.
use col.Base.{
  ◌/◌, sym, ◌∙◌, ◌-◌, ◌^◌, subst, zero, suc, Bool, List, [], arith, if◌then◌else◌, true, ℕ, ◌++◌,
  ◌==◌, ◌≡◌, ◌≢◌, ◌∷◌, refl, ap, ap₂, Bool-cases, inl, inr, ◌%◌,
}
use col.Print.Numbers.{IsDecimal-lower, IsDecimal-upper}
use col.Print.{
  put_digits, fill_buf, Arguments, State, convert, plain, percent, printf, printf_from, switch,
  cprintf, cprintf_from, printint, lower_digits, upper_digits,
}

-- No conversion is `%x`, `%p` or `%c`. A format may end in the middle of one.
abbrev pub IsShared : State → List ℕ → Type 0
IsShared s [] = Unit
IsShared plain (c ∷ fmt) = IsShared (if c == b'%' then percent else plain) fmt
IsShared percent (c ∷ fmt) = (c ≢ b'x') × (c ≢ b'p') × (c ≢ b'c') × IsShared plain fmt

put_digits_decimal :
    (fuel x : ℕ) → put_digits fuel lower_digits x 10 ≡ put_digits fuel upper_digits x 10
unfolding put_digits
put_digits_decimal zero x = refl
put_digits_decimal (suc fuel) x =
    ap₂ ◌∷◌ (IsDecimal-lower (x % 10) (omega arith) ∙ sym (IsDecimal-upper (x % 10) (omega arith)))
      (ap (λ r. if x / 10 == 0 then [] else r) (put_digits_decimal fuel (x / 10)))

printint_decimal :
    (xx : ℕ) (sgn : Bool) → printint lower_digits xx 10 sgn ≡ printint upper_digits xx 10 sgn
unfolding printint fill_buf
printint_decimal xx sgn =
    rw (put_digits_decimal 32 xx, put_digits_decimal 32 ((2 ^ 32 - xx) % 2 ^ 32)) refl

switch-convert :
    (args : Arguments) (argp c : ℕ)
    → c ≢ b'x'
    → c ≢ b'p'
    → c ≢ b'c'
    → switch args argp c ≡ convert args argp c
unfolding switch convert
switch-convert args argp c nx np nc = ground (arith, printint_decimal (args.word argp) true)

cprintf_from-printf_from :
    (args : Arguments) (argp : ℕ) (fmt : List ℕ)
    → IsShared plain fmt
    → cprintf_from args argp fmt ≡ printf_from args plain argp fmt
unfolding printf_from cprintf_from
cprintf_from-printf_from args argp [] h = refl
cprintf_from-printf_from args argp (c ∷ []) h = ground arith
cprintf_from-printf_from args argp (c ∷ d ∷ fmt) h = elim (Bool-cases (c == b'%')) [
  | inl e ↦
      let (nx, np, nc, rest) = subst (λ b. IsShared (if b then percent else plain) (d ∷ fmt)) e h in
      rw (e, switch-convert args argp d nx np nc)
        (ap (λ out. (convert args argp d).0 ++ out)
          (cprintf_from-printf_from args (convert args argp d).1 fmt rest))
  | inr e ↦ rw e (
      ap (λ out. c ∷ out)
        (cprintf_from-printf_from args argp (d ∷ fmt)
          (subst (λ b. IsShared (if b then percent else plain) (d ∷ fmt)) e h)))
]

-- The two loops print the same: for a format without the conversions %x, %p and %c, and the same words
-- behind it, the bytes that cprintf sends to the console are those that printf writes. A format may end
-- in a lone percent sign, have unknown conversions and print null strings.
pub cprintf-printf :
    (fmt : List ℕ) (args : Arguments) → IsShared plain fmt → cprintf fmt args ≡ printf fmt args
unfolding cprintf printf
cprintf-printf fmt args h = cprintf_from-printf_from args 0 fmt h
