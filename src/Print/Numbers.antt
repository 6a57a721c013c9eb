-- ===== src/Print/Numbers.antt =====
-- Printing a number and reading it again.
use native.Mathlib.Nat.{pow-suc, pow-zero, div-lt_iff_lt-mul}
use col.Base.{
  ◌⊎◌, subst, Bool, List, [], arith, get_or, if◌then◌else◌, leb, length, refl, suc, true, zero, ℕ,
  ◌%◌, ◌*◌, ◌++◌, ◌+◌, ◌-◌, ◌/◌, ◌<◌, ◌==◌, ◌^◌, ◌∙◌, ◌≡◌, ◌≤◌, ◌∷◌, Bool-cases, inl, inr, ap,
  false, ◌&&◌,
}
use col.Print.{
  put_digits, write_back, fill_buf, printint, atoi_from, atoi, lower_digits, upper_digits,
}

-- Both tables have the decimal digits in front.
abbrev pub IsDecimal : List ℕ → Type 0
IsDecimal digits = (d : ℕ) → d < 10 → get_or digits d 0 ≡ d + b'0'

atoi_from_digit :
    (n d : ℕ) (s : List ℕ)
    → d < 10
    → n * 10 + d < 2 ^ 31
    → atoi_from n ((d + b'0') ∷ s) ≡ atoi_from (n * 10 + d) s
unfolding atoi_from
atoi_from_digit n d s lt small =
    let e : (n * 10 + (d + b'0') + 2 ^ 32 - b'0') % 2 ^ 32 ≡ n * 10 + d = omega arith in
    ground (arith, e)

atoi_from_lem :
    (digits : List ℕ) (x : ℕ) (out : List ℕ)
    → IsDecimal digits
    → x < 2 ^ 31
    → atoi_from (x / 10) (get_or digits (x % 10) 0 ∷ out) ≡ atoi_from x out
atoi_from_lem digits x out dec small =
    let whole : x / 10 * 10 + x % 10 ≡ x = omega arith in
    rw (dec (x % 10) (omega arith)) (
      atoi_from_digit (x / 10) (x % 10) out (omega arith) (omega arith)
      ∙ ap (λ n. atoi_from n out) whole)

atoi-put_digits :
    (fuel : ℕ) (digits : List ℕ) (x : ℕ) (out : List ℕ)
    → IsDecimal digits
    → x < 10 ^ suc fuel
    → x < 2 ^ 31
    → atoi_from 0 (write_back (put_digits (suc fuel) digits x 10) out) ≡ atoi_from x out
unfolding put_digits write_back
atoi-put_digits zero digits x out dec lt small =
    let first : x / 10 ≡ 0 = omega arith in
    rw (first) (
      subst (λ n. atoi_from n (get_or digits (x % 10) 0 ∷ out) ≡ atoi_from x out) first
        (atoi_from_lem digits x out dec small))
atoi-put_digits (suc fuel) digits x out dec lt small = elim (Bool-cases (x / 10 == 0)) [
  | inl e ↦
      let first : x / 10 ≡ 0 = ground (arith, e) in
      rw e (
        subst (λ n. atoi_from n (get_or digits (x % 10) 0 ∷ out) ≡ atoi_from x out) first
          (atoi_from_lem digits x out dec small))
  | inr e ↦
      let below : x / 10 < 10 ^ suc fuel = omega (arith, pow-suc 10 (suc fuel)) in
      let smaller : x / 10 < 2 ^ 31 = omega arith in
      rw e (
        atoi-put_digits fuel digits (x / 10) (get_or digits (x % 10) 0 ∷ out) dec below smaller
        ∙ atoi_from_lem digits x out dec small)
]

div_below : (x base n : ℕ) → 0 < base → x < base ^ suc n → x / base < base ^ n
div_below x base n h lt = (div-lt_iff_lt-mul h).1 (subst (λ p. x < p) (pow-suc base n) lt)

below_one : (q base : ℕ) → q < base ^ 0 → q ≡ 0
below_one q base h = omega (arith, pow-zero base)

write_back-append :
    (buf : List ℕ) (c : ℕ) (out : List ℕ) → write_back (buf ++ c ∷ []) out ≡ c ∷ write_back buf out
unfolding write_back
write_back-append [] c out = refl
write_back-append (b ∷ buf) c out = write_back-append buf c (b ∷ out)

-- A number below `base ^ n` has at most `n` digits.
length-put_digits :
    (fuel : ℕ) (digits : List ℕ) (x base n : ℕ)
    → 0 < base
    → x < base ^ suc n
    → length (put_digits fuel digits x base) ≤ suc n
unfolding put_digits
length-put_digits zero digits x base n h lt = omega arith
length-put_digits (suc fuel) digits x base zero h lt =
    ground (arith, below_one (x / base) base (div_below x base 0 h lt))
length-put_digits (suc fuel) digits x base (suc n) h lt =
    ground
      (arith, length-put_digits fuel digits (x / base) base n h (div_below x base (suc n) h lt))

pub IsDecimal-lower : IsDecimal lower_digits
IsDecimal-lower d lt = ground arith

pub IsDecimal-upper : IsDecimal upper_digits
IsDecimal-upper d lt = ground arith

minus_lem : (s : List ℕ) → atoi_from 0 (b'-' ∷ s) ≡ 0
unfolding atoi_from
minus_lem s = refl

length-snoc : (s : List ℕ) (c : ℕ) → length (s ++ c ∷ []) ≡ length s + 1
length-snoc [] c = refl
length-snoc (b ∷ s) c = omega (arith, length-snoc s c)

digits-le :
    (digits : List ℕ) (x base : ℕ)
    → (base ≡ 10) ⊎ (base ≡ 16)
    → x < 2 ^ 32
    → length (put_digits 32 digits x base) ≤ 10
digits-le digits x base (inl e) lt =
    let fits : x < base ^ 10 = rw e (omega arith) in
    length-put_digits 32 digits x base 9 (omega arith) fits
digits-le digits x base (inr e) lt =
    let fits : x < base ^ 10 = rw e (omega arith) in
    length-put_digits 32 digits x base 9 (omega arith) fits

-- All that printint stores for a 32-bit word in base 10 or 16, the sign included, stays inside the 16
-- bytes of its buffer: at most 11 bytes.
pub length-fill_buf :
    (digits : List ℕ) (xx base : ℕ) (sgn : Bool)
    → xx < 2 ^ 32
    → (base ≡ 10) ⊎ (base ≡ 16)
    → length (fill_buf digits xx base sgn) ≤ 11
unfolding fill_buf
length-fill_buf digits xx base sgn lt either = ground (
  arith,
  digits-le digits xx base either lt,
  digits-le digits ((2 ^ 32 - xx) % 2 ^ 32) base either (omega arith),
  length-snoc (put_digits 32 digits ((2 ^ 32 - xx) % 2 ^ 32) base) b'-',
)

-- Nothing, or a byte that is no digit and what follows it.
abbrev pub NoDigit : List ℕ → Type 0
NoDigit [] = Unit {0}
NoDigit (c ∷ s) = (leb b'0' c && leb c b'9') ≡ false

write_back-rest :
    (buf out rest : List ℕ) → write_back buf out ++ rest ≡ write_back buf (out ++ rest)
unfolding write_back
write_back-rest [] out rest = refl
write_back-rest (c ∷ buf) out rest = write_back-rest buf (c ∷ out) rest

atoi_from-NoDigit : (n : ℕ) (rest : List ℕ) → NoDigit rest → atoi_from n rest ≡ n
unfolding atoi_from
atoi_from-NoDigit n [] h = refl
atoi_from-NoDigit n (c ∷ s) h = rw h refl

-- The number in decimal digits that either printint prints for an int, with nothing or a byte that is no
-- digit behind it, is read back by atoi where the int is not negative; where it is negative atoi answers
-- 0, for the sign in front.
pub atoi-printint :
    (digits : List ℕ) (xx : ℕ) (rest : List ℕ)
    → IsDecimal digits
    → xx < 2 ^ 32
    → NoDigit rest
    → atoi (printint digits xx 10 true ++ rest) ≡ (if leb (2 ^ 31) xx then 0 else xx)
unfolding atoi printint fill_buf
atoi-printint digits xx rest dec lt ends = elim (Bool-cases (leb (2 ^ 31) xx)) [
  | inl e ↦
      let buf : List ℕ = put_digits 32 digits ((2 ^ 32 - xx) % 2 ^ 32) 10 in
      rw e (rw (write_back-append buf b'-' []) (minus_lem (write_back buf [] ++ rest)))
  | inr e ↦ rw e (
      ap (atoi_from 0) (write_back-rest (put_digits 32 digits xx 10) [] rest)
      ∙ atoi-put_digits 31 digits xx rest dec (omega arith) (ground arith)
      ∙ atoi_from-NoDigit xx rest ends)
]
