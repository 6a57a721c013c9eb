-- ===== src/Login.antt =====
-- The login of xv6-public_1/init.c, with `gets` and `strcmp` of ulib.c. What `read(0, ...)` gives is a list
-- of bytes that ends at the end of file, and the prompts are left out. A C string is the list of its bytes
-- up to the 0.
pub mod Sessions
mod Tests
use col.Base.{
  Bool, List, [], false, if◌then◌else◌, pos, sub_ℕ, suc, true, zero, ℕ, ℤ, ◌-◌, ◌==◌, ◌||◌, ◌∷◌,
}

-- The loop of `gets`, with room for `left` more bytes: what it stores, and the input that is left.
pub gets_from : (left : ℕ) → List ℕ → List ℕ × List ℕ
gets_from zero input = ([], input)
gets_from (suc left) [] = ([], [])
gets_from (suc left) (c ∷ input) =
    let rest = gets_from left input in
    if c == b'\n' || c == b'\r' then (c ∷ [], input) else (c ∷ rest.0, rest.1)

pub gets : (max : ℕ) → List ℕ → List ℕ × List ℕ
gets max input = gets_from (max - 1) input

-- A buffer as a C string.
pub c_string : List ℕ → List ℕ
c_string [] = []
c_string (c ∷ buf) = let rest = c_string buf in if c == 0 then [] else c ∷ rest

-- `if(len > 0 && s[len - 1] == '\n') s[len - 1] = '\0';`
pub chomp : List ℕ → List ℕ
chomp [] = []
chomp (c ∷ []) = if c == b'\n' then [] else c ∷ []
chomp (c ∷ d ∷ s) = c ∷ chomp (d ∷ s)

pub strcmp : List ℕ → List ℕ → ℤ
strcmp [] [] = pos 0
strcmp [] (d ∷ q) = sub_ℕ 0 d
strcmp (c ∷ p) [] = sub_ℕ c 0
strcmp (c ∷ p) (d ∷ q) = let rest = strcmp p q in if c == d then rest else sub_ℕ c d

abbrev pub is_zero : ℤ → Bool
is_zero (pos n) = n == 0
is_zero _ = false

-- `gets(s, 32)` and the newline taken off: the string, and the input that is left.
pub read_name : List ℕ → List ℕ × List ℕ
read_name input = (chomp (c_string (gets 32 input).0), (gets 32 input).1)

-- The loop, with `left` attempts to go: whether `login` returns from inside it, and the input that is
-- left. Otherwise `login` sleeps, and returns too.
pub login_from : (left : ℕ) (username password : List ℕ) → List ℕ → Bool × List ℕ
login_from zero username password input = (false, input)
login_from (suc left) username password input =
    let uname = read_name input in
    let pword = read_name uname.1 in
    let again = login_from left username password uname.1 in
    let after = login_from left username password pword.1 in
    if is_zero (strcmp uname.0 username)
    then (if is_zero (strcmp pword.0 password) then (true, pword.1) else after)
    else again

pub login : (username password : List ℕ) → List ℕ → Bool × List ℕ
login = login_from 3
