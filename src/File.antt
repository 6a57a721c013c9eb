-- ===== src/File.antt =====
-- The open files of xv6-public_2/file.c: the table with its reference counts, and the splitting of a
-- large write. A `struct file *` is an index into the table. `pipewrite` and `writei` are arguments of
-- `filewrite`; `off` has no bound.
pub mod Refs
pub mod Pieces
use col.Base.{
  Bool, List, Option, [], false, get_or, if◌then◌else◌, ltb, negsuc, none, not, pos, set, some, suc,
  zero, ℕ, ℤ, ◌*◌, ◌+◌, ◌-◌, ◌/◌, ◌==◌, ◌∷◌,
}

pub data Kind : Type 0 where
  fd_none fd_pipe fd_inode : Kind

-- `struct file`
pub record File : Type 0 where
  pub kind : Kind
  pub ref : ℕ
  pub readable : Bool
  pub writable : Bool
  pub pipe : ℕ
  pub ip : ℕ
  pub off : ℕ

abbrev pub no_file : File
no_file = record {
  kind = fd_none;
  ref = 0;
  readable = false;
  writable = false;
  pipe = 0;
  ip = 0;
  off = 0;
}

-- The table afterwards, and the index of the new file, counted from `i`; `none` for 0.
unfoldable pub filealloc : List File → ℕ → List File × Option ℕ
filealloc [] i = ([], none)
filealloc (f ∷ fs) i =
    let rest = filealloc fs (i + 1) in
    if f.ref == 0 then (record f { ref = 1 } ∷ fs, some i) else (f ∷ rest.0, rest.1)

-- `none` is the panic, here and in `fileclose`.
unfoldable pub filedup : ℕ → List File → Option (List File)
filedup i fs =
    let f = get_or fs i no_file in
    if ltb f.ref 1 then none else some (set fs i (record f { ref = f.ref + 1 }))

-- What `fileclose` gives up.
pub data Closing : Type 0 where
  still_open nothing : Closing
  pipe_end : (pipe : ℕ) → (writable : Bool) → Closing
  inode : ℕ → Closing

abbrev pub closing : File → Closing
closing f = elim f.kind [
  | fd_none ↦ nothing
  | fd_pipe ↦ pipe_end f.pipe f.writable
  | fd_inode ↦ inode f.ip
]

unfoldable pub fileclose : ℕ → List File → Option (List File × Closing)
fileclose i fs =
    let f = get_or fs i no_file in
    if ltb f.ref 1
    then none
    else if ltb 0 (f.ref - 1)
    then some (set fs i (record f { ref = f.ref - 1 }), still_open)
    else some (set fs i (record f { ref = 0; kind = fd_none }), closing f)

-- `((MAXOPBLOCKS-1-1-2) / 2) * 512`
abbrev pub max_piece : ℕ
max_piece = (10 - 1 - 1 - 2) / 2 * 512

abbrev pub piece : ℕ → ℕ
piece left = if ltb max_piece left then max_piece else left

-- How `filewrite` ends: with `n`, with -1, or with a panic. `stuck` is a loop that ran out of fuel.
pub data Written : Type 0 where
  all_written : ℕ → Written
  failed panics stuck : Written

module _ {S : Type 0} (writei : S → (from off n : ℕ) → S × ℤ) where
  -- One call of `writei`, with `i` of the `n` bytes written: what follows its answer `r`.
  pub write_loop : (fuel i n off : ℕ) → S → S × ℕ × Written
  write_loop zero i n off s = (s, off, stuck)
  write_loop (suc fuel) i n off s =
      let n1 = piece (n - i) in
      let (s', r) = writei s i off n1 in
      let rest = write_loop fuel (i + n1) n (off + n1) s' in
      if ltb i n
      then (elim r [
        | negsuc e ↦ (s', off, failed)
        | pos m ↦ if m == n1 then rest else (s', off + m, panics)
      ])
      else (s, off, if i == n then all_written n else failed)

  -- A write of `n` bytes to file `f`.
  pub filewrite : (pipewrite : S → ℕ → S × Written) → (fuel n : ℕ) → File → S → S × ℕ × Written
  filewrite pipewrite fuel n f s = if not f.writable then (s, f.off, failed) else elim f.kind [
    | fd_none ↦ (s, f.off, panics)
    | fd_pipe ↦ (let (s', w) = pipewrite s n in (s', f.off, w))
    | fd_inode ↦ write_loop fuel 0 n f.off s
  ]
