-- ===== src/Print.antt =====
-- Formatted output: `printint` and `printf` of xv6-public_2/printf.c, `printint` and `cprintf` of
-- xv6-public_2/console.c, and `atoi` of ulib.c. A C string is the list of its bytes up to the 0, and the
-- bytes that `putc` and `consputc` get are a list. `cprintf` is modelled for a format that is not null,
-- without its lock.
pub mod Numbers
pub mod Formats
mod Tests
use col.Base.{
  Bool, List, [], false, get_or, if◌then◌else◌, leb, ltb, true, suc, zero, ℕ, ◌%◌, ◌&&◌, ◌*◌, ◌++◌,
  ◌+◌, ◌-◌, ◌/◌, ◌==◌, ◌^◌, ◌||◌, ◌∷◌,
}

-- `static char digits[]`, of printf.c and of console.c
abbrev pub upper_digits : List ℕ
upper_digits =
    b'0' ∷ b'1' ∷ b'2' ∷ b'3' ∷ b'4' ∷ b'5' ∷ b'6' ∷ b'7' ∷ b'8' ∷ b'9' ∷ b'A' ∷ b'B' ∷ b'C' ∷ b'D'
    ∷ b'E' ∷ b'F' ∷ []

abbrev pub lower_digits : List ℕ
lower_digits =
    b'0' ∷ b'1' ∷ b'2' ∷ b'3' ∷ b'4' ∷ b'5' ∷ b'6' ∷ b'7' ∷ b'8' ∷ b'9' ∷ b'a' ∷ b'b' ∷ b'c' ∷ b'd'
    ∷ b'e' ∷ b'f' ∷ []

-- The do-while loop: what is stored in `buf`, in order. A 32-bit word has at most 32 digits.
unfoldable pub put_digits : ℕ → List ℕ → (x base : ℕ) → List ℕ
put_digits zero digits x base = []
put_digits (suc fuel) digits x base =
    let rest = put_digits fuel digits (x / base) base in
    get_or digits (x % base) 0 ∷ (if x / base == 0 then [] else rest)

-- `while(--i >= 0)`: the bytes of `buf` from the last to the first, and what is printed after them.
unfoldable pub write_back : List ℕ → List ℕ → List ℕ
write_back [] out = out
write_back (c ∷ buf) out = write_back buf (c ∷ out)

-- `sgn && xx < 0`, for the 32-bit word of an int
abbrev pub is_negative : ℕ → Bool → Bool
is_negative xx sgn = sgn && leb (2 ^ 31) xx

-- All of `buf`, the sign included.
unfoldable pub fill_buf : List ℕ → (xx base : ℕ) → Bool → List ℕ
fill_buf digits xx base sgn =
    if is_negative xx sgn
    then put_digits 32 digits ((2 ^ 32 - xx) % 2 ^ 32) base ++ b'-' ∷ []
    else put_digits 32 digits xx base

unfoldable pub printint : List ℕ → (xx base : ℕ) → Bool → List ℕ
printint digits xx base sgn = write_back (fill_buf digits xx base sgn) []

-- The loop; `n` wraps around as a machine word.
pub atoi_from : ℕ → List ℕ → ℕ
atoi_from n [] = n
atoi_from n (c ∷ s) =
    let rest = atoi_from ((n * 10 + c + 2 ^ 32 - b'0') % 2 ^ 32) s in
    if leb b'0' c && leb c b'9' then rest else n

pub atoi : List ℕ → ℕ
atoi s = atoi_from 0 s

-- The words that the caller pushed behind `fmt`, and the string at an address.
pub record Arguments : Type 0 where
  pub word : ℕ → ℕ
  pub string_at : ℕ → List ℕ

-- What a string argument prints; 0 is the null pointer.
abbrev pub string_of : Arguments → ℕ → List ℕ
string_of args p = if p == 0 then b'(' ∷ b'n' ∷ b'u' ∷ b'l' ∷ b'l' ∷ b')' ∷ [] else args.string_at p

-- The state `'%'` of `printf` at `c`: what is printed, and the new `ap`.
pub convert : Arguments → (ap c : ℕ) → List ℕ × ℕ
convert args ap c =
    if c == b'd'
    then (printint upper_digits (args.word ap) 10 true, ap + 1)
    else if c == b'x' || c == b'p'
    then (printint upper_digits (args.word ap) 16 false, ap + 1)
    else if c == b's'
    then (string_of args (args.word ap), ap + 1)
    else if c == b'c'
    then (args.word ap % 256 ∷ [], ap + 1)
    else if c == b'%'
    then (c ∷ [], ap)
    else (b'%' ∷ c ∷ [], ap)

-- The variable `state`: 0 or `'%'`.
pub data State : Type 0 where
  plain percent : State

pub printf_from : Arguments → State → (ap : ℕ) → List ℕ → List ℕ
printf_from args state ap [] = []
printf_from args plain ap (c ∷ fmt) =
    let rest = printf_from args plain ap fmt in
    let conversion = printf_from args percent ap fmt in if c == b'%' then conversion else c ∷ rest
printf_from args percent ap (c ∷ fmt) =
    (convert args ap c).0 ++ printf_from args plain (convert args ap c).1 fmt

pub printf : List ℕ → Arguments → List ℕ
printf fmt args = printf_from args plain 0 fmt

-- The `switch` of `cprintf`.
pub switch : Arguments → (argp c : ℕ) → List ℕ × ℕ
switch args argp c =
    if c == b'd'
    then (printint lower_digits (args.word argp) 10 true, argp + 1)
    else if c == b'x' || c == b'p'
    then (printint lower_digits (args.word argp) 16 false, argp + 1)
    else if c == b's'
    then (string_of args (args.word argp), argp + 1)
    else if c == b'%'
    then (b'%' ∷ [], argp)
    else (b'%' ∷ c ∷ [], argp)

pub cprintf_from : Arguments → (argp : ℕ) → List ℕ → List ℕ
cprintf_from args argp [] = []
cprintf_from args argp (c ∷ []) = if c == b'%' then [] else c ∷ []
cprintf_from args argp (c ∷ d ∷ fmt) =
    let rest = cprintf_from args argp (d ∷ fmt) in
    let after = cprintf_from args (switch args argp d).1 fmt in
    if c == b'%' then (switch args argp d).0 ++ after else c ∷ rest

pub cprintf : List ℕ → Arguments → List ℕ
cprintf fmt args = cprintf_from args 0 fmt
