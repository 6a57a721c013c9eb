-- ===== src/Line.antt =====
-- The line editor of the console in xv6-public_2/console.c: the buffer `input`, the keys of
-- `consoleintr` that edit it, and `consoleread`. The three indices are 32-bit words that wrap. What is
-- echoed to the screen is left out, and the bytes of the buffer are plain numbers.
pub mod Order
pub mod Bounds
mod Tests
use col.Base.{
  Bool, List, [], false, get_or, if◌then◌else◌, ltb, not, set, suc, true, zero, ℕ, ◌%◌, ◌&&◌, ◌+◌,
  ◌-◌, ◌==◌, ◌^◌, ◌||◌, ◌∷◌,
}

abbrev pub input_buf : ℕ
input_buf = 128

-- `uint` arithmetic.
abbrev pub word : ℕ → ℕ
word x = x % 2 ^ 32

-- `a - b` on `uint`.
abbrev pub minus : ℕ → ℕ → ℕ
minus a b = word (a + 2 ^ 32 - b)

-- `input`
pub record Input : Type 0 where
  pub buf : List ℕ
  pub r : ℕ
  pub w : ℕ
  pub e : ℕ

abbrev pub newline : ℕ
newline = b'\n'

abbrev pub carriage_return : ℕ
carriage_return = 13

-- `C('D')`
abbrev pub ctrl_d : ℕ
ctrl_d = 4

-- Ctrl-H and delete.
unfoldable pub backspace : Input → Input
backspace i = if i.e == i.w then i else record i { e = minus i.e 1 }

-- The test of the loop for Ctrl-U.
abbrev pub goes_on : Input → Bool
goes_on i = not (i.e == i.w) && not (get_or i.buf (minus i.e 1 % input_buf) 0 == newline)

unfoldable pub kill_loop : ℕ → Input → Input
kill_loop zero i = i
kill_loop (suc fuel) i =
    let rest = kill_loop fuel (record i { e = minus i.e 1 }) in if goes_on i then rest else i

-- Ctrl-U. There are `e - w` rounds at most.
unfoldable pub kill_line : Input → Input
kill_line i = kill_loop (minus i.e i.w) i

abbrev pub translate : ℕ → ℕ
translate c = if c == carriage_return then newline else c

abbrev pub store : ℕ → Input → Input
store c i = record i { buf = set i.buf (i.e % input_buf) c; e = word (i.e + 1) }

abbrev pub ends_line : ℕ → Input → Bool
ends_line c i = c == newline || c == ctrl_d || i.e == word (i.r + input_buf)

-- Any other key: the input, and whether the reader is woken.
unfoldable pub insert : ℕ → Input → Input × Bool
insert c i =
    if not (c == 0) && ltb (minus i.e i.r) input_buf
    then (let j = store (translate c) i in
        if ends_line (translate c) j then (record j { w = j.e }, true) else (j, false))
    else (i, false)

-- How a stretch of `consoleread` ends: with the number of bytes that are still wanted, in a sleep
-- with so many, or with -1.
pub data Ended : Type 0 where
  returns sleeps : ℕ → Ended
  interrupted : Ended

-- A stretch of the loop with `n` bytes to go: the input, the bytes stored at `dst`, and its end.
unfoldable pub read_loop : (killed : Bool) → (target n : ℕ) → Input → Input × List ℕ × Ended
read_loop killed target zero i = (i, [], returns 0)
read_loop killed target (suc n) i =
    let c = get_or i.buf (i.r % input_buf) 0 in
    let (i', xs, end) = read_loop killed target n (record i { r = word (i.r + 1) }) in
    if i.r == i.w
    then (i, [], if killed then interrupted else sleeps (suc n))
    else if c == ctrl_d
    then ((if ltb (suc n) target then i else record i { r = word (i.r + 1) }), [], returns (suc n))
    else if c == newline
    then (record i { r = word (i.r + 1) }, c ∷ [], returns n)
    else (i', c ∷ xs, end)

abbrev pub consoleread : Bool → ℕ → Input → Input × List ℕ × Ended
consoleread killed n i = read_loop killed n n i
