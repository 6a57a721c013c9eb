-- ===== src/Grep.antt =====
-- The regular-expression matcher of xv6-public_2/grep.c. A C string is the list of its bytes
-- before the terminating NUL, so `*text == '\0'` is the test for the empty list.
pub mod Language
mod Tests
use col.Base.{ℕ, Bool, true, false, ◌==◌, ◌&&◌, ◌||◌, if◌then◌else◌, List, [], ◌∷◌}

-- `re[0] == '.' || re[0] == *text`
pub char_fits : ℕ → ℕ → Bool
char_fits c t = c == b'.' || c == t

-- `here` is the call `matchhere(re, text)` of the loop's body, for the `re` that it is handed.
pub matchstar : ℕ → (List ℕ → Bool) → List ℕ → Bool
matchstar c here [] = here []
matchstar c here (t ∷ text) =
    let again = matchstar c here text in
    if here (t ∷ text) then true else if t == c || c == b'.' then again else false

pub is_empty : List ℕ → Bool
is_empty [] = true
is_empty (t ∷ text) = false

pub step_char : ℕ → (List ℕ → Bool) → List ℕ → Bool
step_char c here [] = false
step_char c here (t ∷ text) = if char_fits c t then here text else false

pub matchhere : List ℕ → List ℕ → Bool
unfolding is_empty step_char
matchhere [] text = true
matchhere (c ∷ []) text = if c == b'$' then is_empty text else step_char c (λ rest. true) text
matchhere (c ∷ d ∷ re) text =
    if d == b'*'
    then matchstar c (λ rest. matchhere re rest) text
    else step_char c (λ rest. matchhere (d ∷ re) rest) text

-- The `do` loop of `match`: it also tries the empty rest of the text.
pub match_from : List ℕ → List ℕ → Bool
match_from re [] = matchhere re []
match_from re (t ∷ text) =
    let again = match_from re text in if matchhere re (t ∷ text) then true else again

pub match : List ℕ → List ℕ → Bool
match [] text = match_from [] text
match (c ∷ re) text = if c == b'^' then matchhere re text else match_from (c ∷ re) text
