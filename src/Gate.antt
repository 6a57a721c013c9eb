-- ===== src/Gate.antt =====
-- The blocking of system calls in xv6-public_1: `block_actual` and `unblock_actual` of exec.c, their
-- wrappers in sysproc.c, and the test in `syscall` of syscall.c. An `int` is an integer, and a C string
-- the list of its bytes. `argint` and `argstr` have read the arguments, or failed.
pub mod Blocking
mod Tests
use col.Base.{
  Bool, List, Option, [], false, get_or, if◌then◌else◌, leb, length, ltb, negsuc, none, not, pos,
  set, some, true, ℕ, ℤ, ◌&&◌, ◌==◌, ◌||◌, ◌∷◌,
}

abbrev pub sys_fork : ℕ
sys_fork = 1

abbrev pub sys_exit : ℕ
sys_exit = 2

abbrev pub sys_exec : ℕ
sys_exec = 7

abbrev pub sys_block_number : ℕ
sys_block_number = 23

abbrev pub sys_unblock_number : ℕ
sys_unblock_number = 24

-- NELEM(syscalls); every number from 1 on has its function.
abbrev pub nelem_syscalls : ℕ
nelem_syscalls = 26

-- The new flags `blocked_syscalls`, and whether the answer is 0.
pub block_actual : ℤ → List Bool → List Bool × Bool
block_actual (negsuc n) blocked = (blocked, false)
block_actual (pos n) blocked =
    if n == sys_fork || n == sys_exit
    then (blocked, false)
    else if leb (length blocked) n
    then (blocked, false)
    else (set blocked n true, true)

pub unblock_actual : ℤ → List Bool → List Bool × Bool
unblock_actual (negsuc n) blocked = (blocked, false)
unblock_actual (pos n) blocked =
    if leb (length blocked) n then (blocked, false) else (set blocked n false, true)

abbrev pub is_number : ℤ → ℕ → Bool
is_number (pos n) m = n == m
is_number (negsuc n) m = false

pub sys_block : Option ℤ → List Bool → List Bool × Bool
sys_block none blocked = (blocked, false)
sys_block (some id) blocked =
    if is_number id sys_fork || is_number id sys_exit
    then (blocked, false)
    else block_actual id blocked

pub sys_unblock : Option ℤ → List Bool → List Bool × Bool
sys_unblock none blocked = (blocked, false)
sys_unblock (some id) blocked = unblock_actual id blocked

-- `strncmp(path, s, strlen(s)) == 0`
abbrev pub starts_with : List ℕ → List ℕ → Bool
starts_with path [] = true
starts_with [] (c ∷ s) = false
starts_with (d ∷ path) (c ∷ s) = d == c && starts_with path s

abbrev pub names_unblock : Option (List ℕ) → Bool
names_unblock none = false
names_unblock (some path) = starts_with path (b'u' ∷ b'n' ∷ b'b' ∷ b'l' ∷ b'o' ∷ b'c' ∷ b'k' ∷ [])

-- What `syscall` comes to. `out_of_range` is the read of a flag that does not exist.
pub data Verdict : Type 0 where
  refused unknown out_of_range : Verdict
  runs : ℕ → Verdict

abbrev pub call : ℤ → Verdict
call (pos n) = if ltb 0 n && ltb n nelem_syscalls then runs n else unknown
call (negsuc n) = unknown

-- `if(curproc->blocked_syscalls[num])`
abbrev pub check_flag : ℤ → List Bool → Verdict
check_flag (negsuc n) blocked = out_of_range
check_flag (pos n) blocked =
    if leb (length blocked) n
    then out_of_range
    else if get_or blocked n false
    then refused
    else call (pos n)

unfoldable pub syscall : ℤ → Option (List ℕ) → List Bool → Verdict
syscall num path blocked =
    if is_number num sys_exec && names_unblock path
    then call num
    else if not (is_number num sys_fork) && not (is_number num sys_exit)
    then check_flag num blocked
    else call num
