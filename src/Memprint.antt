-- ===== src/Memprint.antt =====
-- The memory printer of xv6-public_3: `countphysicalpages` of vm.c, `collect_proc_pages` of proc.c, and
-- `print_num` and the case of Ctrl+I in console.c. `pp_info` is the list of its first `pp_count` entries, and
-- the bytes that `consputc` gets are a list.
pub mod Pages
pub mod Numbers
mod Tests
use col.Base.{
  Bool, List, [], false, if◌then◌else◌, leb, not, suc, true, zero, ℕ, ◌%◌, ◌&&◌, ◌++◌, ◌+◌, ◌/◌,
  ◌==◌, ◌||◌, ◌∷◌,
}
use col.Paging.{Memory, is_present, pte_addr}
use col.Print.{write_back}

-- The inner loop, over the entries below `j`.
pub count_entries : (j table : ℕ) → Memory → ℕ
count_entries zero table m = 0
count_entries (suc j) table m =
    count_entries j table m + (if is_present (m.words table j) then 1 else 0)

-- The outer loop, over the tables below `i`.
pub count_tables : (i pgdir : ℕ) → Memory → ℕ
count_tables zero pgdir m = 0
count_tables (suc i) pgdir m =
    count_tables i pgdir m
    + (if is_present (m.words pgdir i)
        then count_entries 1024 (pte_addr (m.words pgdir i)) m
        else 0)

pub countphysicalpages : (pgdir : ℕ) → Memory → ℕ
countphysicalpages pgdir m = count_tables 512 pgdir m

-- `enum procstate` of this kernel.
pub data State : Type 0 where
  unused embryo sleeping runnable running zombie : State

-- The fields of `struct proc` that are read.
pub record Proc : Type 0 where
  pub state : State
  pub pid : ℕ
  pub pgdir : ℕ

abbrev pub is_unused : State → Bool
is_unused unused = true
is_unused _ = false

-- `state == SLEEPING || state == RUNNING || state == RUNNABLE`
abbrev pub is_alive : State → Bool
is_alive sleeping = true
is_alive running = true
is_alive runnable = true
is_alive _ = false

-- `struct proc_page_info`
pub record ProcPageInfo : Type 0 where
  pub pid : ℕ
  pub pages : ℕ

pub collect_proc_pages : List Proc → Memory → List ProcPageInfo
collect_proc_pages [] m = []
collect_proc_pages (p ∷ ptable) m =
    let rest = collect_proc_pages ptable m in
    if not (is_unused p.state) && (leb 1 p.pid && is_alive p.state)
    then record { pid = p.pid; pages = countphysicalpages p.pgdir m } ∷ rest
    else rest

-- The do-while loop of `print_num`: what is stored in `buf`. An int has at most 10 digits.
pub num_digits : ℕ → ℕ → List ℕ
num_digits zero num = []
num_digits (suc fuel) num =
    let rest = num_digits fuel (num / 10) in
    (b'0' + num % 10) ∷ (if num / 10 == 0 then [] else rest)

pub print_num : ℕ → List ℕ
print_num num = write_back (num_digits 10 num) []

pub print_infos : List ProcPageInfo → List ℕ
print_infos [] = []
print_infos (info ∷ infos) =
    print_num info.pid ++ b' ' ∷ (print_num info.pages ++ b'\n' ∷ print_infos infos)

-- "Ctrl+I detected\n"
abbrev pub msg : List ℕ
msg =
    b'C' ∷ b't' ∷ b'r' ∷ b'l' ∷ b'+' ∷ b'I' ∷ b' ' ∷ b'd' ∷ b'e' ∷ b't' ∷ b'e' ∷ b'c' ∷ b't' ∷ b'e'
    ∷ b'd' ∷ b'\n' ∷ []

-- What the case of Ctrl+I prints.
pub ctrl_i : List Proc → Memory → List ℕ
ctrl_i ptable m = b'\n' ∷ (msg ++ print_infos (collect_proc_pages ptable m))
