-- ===== src/Print/Tests.antt =====
-- Formatted output of concrete numbers and texts.
use col.Base.{arith, ◌++◌, ◌==◌, List, if◌then◌else◌, ◌≡◌, [], true, ◌∷◌, ℕ, refl}
use col.Print.{
  write_back, put_digits, fill_buf, upper_digits, printint, Arguments, printf, cprintf, atoi,
}
use col.Print.Numbers.{atoi-printint, IsDecimal-upper}
use col.Print.Formats.{cprintf-printf}

-- "-42", of the word of -42
minus_forty_two : printint upper_digits 0xffffffd6 10 true ≡ b'-' ∷ b'4' ∷ b'2' ∷ []
unfolding printint fill_buf put_digits write_back
minus_forty_two = refl

-- with "; 7" behind the number
atoi-printint_example : atoi (printint upper_digits 1033 10 true ++ b';' ∷ b' ' ∷ b'7' ∷ []) ≡ 1033
atoi-printint_example =
    atoi-printint upper_digits 1033 (b';' ∷ b' ' ∷ b'7' ∷ []) IsDecimal-upper (omega arith) refl

-- "pid %d: %s%q%"
abbrev message : List ℕ
message = b'p' ∷ b'i' ∷ b'd' ∷ b' ' ∷ b'%' ∷ b'd' ∷ b':' ∷ b'%' ∷ b's' ∷ b'%' ∷ b'q' ∷ b'%' ∷ []

abbrev words : Arguments
words = record { word = λ i. if i == 0 then 7 else 0; string_at = λ p. [] }

cprintf-printf_example : cprintf message words ≡ printf message words
cprintf-printf_example = cprintf-printf message words (
  omega arith,
  omega arith,
  omega arith,
  (omega arith, omega arith, omega arith, (omega arith, omega arith, omega arith, tt)),
)
