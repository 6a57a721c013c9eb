-- ===== src/Args.antt =====
-- How system calls fetch their arguments, in syscall.c of xv6-public_2, and the calls of sysfile.c that
-- work on descriptors alone. User memory is a function from addresses to bytes; the process gives its
-- size, its stack pointer and its open files.
pub mod Fetch
pub mod Within
pub mod Descriptors
mod Tests
use col.Base.{
  List, Option, Bool, false, true, get_or, if◌then◌else◌, leb, length, ltb, negsuc, none, pos, set,
  some, suc, zero, ℕ, ℤ, ◌%◌, ◌*◌, ◌+◌, ◌-◌, ◌==◌, ◌^◌, ◌||◌,
}
use col.Proc.{Proc, Kernel}
use col.Proc.Table.{slot, put_slot, add_ref, drop_ref}

abbrev pub nofile : ℕ
nofile = 16

-- The 32-bit word at an address, and the `int` that it is.
abbrev pub word_of : (ℕ → ℕ) → ℕ → ℕ
word_of mem a = mem a + 256 * mem (a + 1) + 65536 * mem (a + 2) + 16777216 * mem (a + 3)

abbrev pub signed : ℕ → ℤ
signed w = if ltb w (2 ^ 31) then pos w else negsuc (2 ^ 32 - 1 - w)

-- `none` is the answer -1, here and below.
unfoldable pub fetchint : (sz : ℕ) → (ℕ → ℕ) → ℕ → Option ℕ
fetchint sz mem addr =
    if leb sz addr || ltb sz ((addr + 4) % 2 ^ 32) then none else some (word_of mem addr)

-- The loop of `fetchstr` with `left` bytes to the end, `n` after the start.
unfoldable pub find_nul : (left : ℕ) → (ℕ → ℕ) → (s n : ℕ) → Option ℕ
find_nul zero mem s n = none
find_nul (suc left) mem s n =
    let rest = find_nul left mem (s + 1) (n + 1) in if mem s == 0 then some n else rest

unfoldable pub fetchstr : (sz : ℕ) → (ℕ → ℕ) → ℕ → Option ℕ
fetchstr sz mem addr = if leb sz addr then none else find_nul (sz - addr) mem addr 0

-- The word of argument `n`.
unfoldable pub argint : Proc → (ℕ → ℕ) → ℕ → Option ℕ
argint p mem n = fetchint p.sz mem ((p.tf.esp + 4 + 4 * n) % 2 ^ 32)

-- The rest of `argptr` for the pointer `i`.
abbrev pub check_ptr : (sz : ℕ) → ℤ → ℕ → Option ℕ
check_ptr sz (negsuc k) i = none
check_ptr sz (pos size) i = if leb sz i || ltb sz ((i + size) % 2 ^ 32) then none else some i

unfoldable pub argptr : Proc → (ℕ → ℕ) → ℕ → ℤ → Option ℕ
argptr p mem n size = elim (argint p mem n) [ none ↦ none | some i ↦ check_ptr p.sz size i ]

-- The pointer and the length of the string.
unfoldable pub argstr : Proc → (ℕ → ℕ) → ℕ → Option (ℕ × ℕ)
argstr p mem n = elim (argint p mem n) [
  | none ↦ none
  | some addr ↦ elim (fetchstr p.sz mem addr) [ none ↦ none | some len ↦ some (addr, len) ]
]

abbrev pub check_fd : Proc → ℤ → Option (ℕ × ℕ)
check_fd p (negsuc k) = none
check_fd p (pos fd) =
    if leb nofile fd || get_or p.ofile fd 0 == 0 then none else some (fd, get_or p.ofile fd 0)

-- The descriptor and its file.
unfoldable pub argfd : Proc → (ℕ → ℕ) → ℕ → Option (ℕ × ℕ)
argfd p mem n = elim (argint p mem n) [ none ↦ none | some w ↦ check_fd p (signed w) ]

-- The arguments of `sys_read` and `sys_write`: the file, the count and the buffer.
unfoldable pub io_args : Proc → (ℕ → ℕ) → Option (ℕ × ℤ × ℕ)
io_args p mem = elim (argfd p mem 0) [
  | none ↦ none
  | some (_, f) ↦ elim (argint p mem 2) [
    | none ↦ none
    | some n ↦ elim (argptr p mem 1 (signed n)) [ none ↦ none | some a ↦ some (f, signed n, a) ]
  ]
]

-- The first free entry, with `left` entries to go from `fd` on.
unfoldable pub free_fd : (left : ℕ) → List ℕ → (fd : ℕ) → Option ℕ
free_fd zero files fd = none
free_fd (suc left) files fd =
    let rest = free_fd left files (fd + 1) in if get_or files fd 0 == 0 then some fd else rest

abbrev pub put_fd : ℕ → ℕ → Proc → Proc
put_fd fd f p = record p { ofile = set p.ofile fd f }

unfoldable pub fdalloc : ℕ → Proc → Option (ℕ × Proc)
fdalloc f p = elim (free_fd nofile p.ofile 0) [ none ↦ none | some fd ↦ some (fd, put_fd fd f p) ]

unfoldable pub sys_dup : (ℕ → ℕ) → (cur : ℕ) → Kernel → Kernel × Option ℕ
sys_dup mem cur k = elim (argfd (slot k cur) mem 0) [
  | none ↦ (k, none)
  | some (_, f) ↦ elim (fdalloc f (slot k cur)) [
    | none ↦ (k, none)
    | some (fd, p) ↦ (record (put_slot k cur p) { file_refs = add_ref k.file_refs f }, some fd)
  ]
]

-- Up to what `fileclose` does with a file without references.
unfoldable pub sys_close : (ℕ → ℕ) → (cur : ℕ) → Kernel → Kernel × Option ℕ
sys_close mem cur k = elim (argfd (slot k cur) mem 0) [
  | none ↦ (k, none)
  | some (fd, f) ↦ (
    record (put_slot k cur (put_fd fd 0 (slot k cur))) { file_refs = drop_ref k.file_refs f },
    some 0,
  )
]
