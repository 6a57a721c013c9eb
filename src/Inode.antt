-- ===== src/Inode.antt =====
-- The contents of an inode in xv6-public_2/fs.c: `bmap`, `itrunc`, `readi` and `writei`, over the disk of
-- Disk.antt. The caller holds the inode's lock. An indirect block is its 128 words, little-endian;
-- `iupdate` keeps the disk's copy of the inode, `stored`.
pub mod Words
pub mod Mapped
pub mod Growth
pub mod Bmap
pub mod Fails
pub mod Put
pub mod Bytes
pub mod WriteLoop
pub mod ReadLoop
pub mod Contents
pub mod Extend
pub mod LogRoom
pub mod Trunc
pub mod Sample
mod Tests
use col.Base.{
  ◌^◌, Bool, leb, min, ◌++◌, ◌||◌, [], true, false, zero, suc, ◌∷◌, List, Option, get_or,
  if◌then◌else◌, ltb, none, set, some, ℕ, ◌%◌, ◌&&◌, ◌*◌, ◌+◌, ◌-◌, ◌/◌, ◌==◌,
}
use col.Disk.{bsize, log_fits, Disk, put_at, to_log, balloc, bfree}

abbrev pub ndirect : ℕ
ndirect = 12

abbrev pub nindirect : ℕ
nindirect = bsize / 4

abbrev pub maxfile : ℕ
maxfile = ndirect + nindirect

-- T_DIR, T_FILE and T_DEV, and 0 for a free inode.
pub data FileType : Type 0 where
  free_inode directory plain device : FileType

abbrev pub is_device : FileType → Bool
is_device device = true
is_device _ = false

-- The fields of `struct inode` that stand on the disk too.
pub record Inode : Type 0 where
  pub kind : FileType
  pub major : ℕ
  pub minor : ℕ
  pub nlink : ℕ
  pub size : ℕ
  pub addrs : List ℕ

-- The disk with the copy of this inode that it holds.
pub record Store : Type 0 where
  pub disk : Disk
  pub stored : Inode

-- Word `i` of a block of bytes.
abbrev pub word_at : (ℕ → ℕ) → ℕ → ℕ
word_at f i = f (4 * i) + 256 * f (4 * i + 1) + 65536 * f (4 * i + 2) + 16777216 * f (4 * i + 3)

-- Byte `r` of a word.
abbrev pub byte_of : ℕ → ℕ → ℕ
byte_of v r =
    if r == 0
    then v % 256
    else if r == 1
    then v / 256 % 256
    else if r == 2
    then v / 65536 % 256
    else v / 16777216 % 256

-- `a[i] = v` in the block `blk`.
unfoldable pub put_word : ℕ → ℕ → ℕ → Disk → Disk
put_word blk i v d = record d {
  bytes = λ x y. if x == blk && y / 4 == i then byte_of v (y % 4) else d.bytes x y;
}

abbrev pub addr : Inode → ℕ → ℕ
addr ip i = get_or ip.addrs i 0

abbrev pub put_addr : ℕ → ℕ → Inode → Inode
put_addr i a ip = record ip { addrs = set ip.addrs i a }

-- `if((addr = ip->addrs[i]) == 0) ip->addrs[i] = addr = balloc(ip->dev)`; `none` is a panic.
unfoldable pub ensure_addr : ℕ → Inode → Disk → Option (ℕ × Inode × Disk)
ensure_addr i ip d =
    if addr ip i == 0
    then elim (balloc d) [ none ↦ none | some (b, d') ↦ some (b, put_addr i b ip, d') ]
    else some (addr ip i, ip, d)

-- The part of `bmap` for an entry of the indirect block `blk`.
unfoldable pub ensure_entry : (blk bn : ℕ) → Inode → Disk → Option (ℕ × Inode × Disk)
ensure_entry blk bn ip d =
    if word_at (d.bytes blk) bn == 0
    then elim (balloc d) [
      | none ↦ none
      | some (b, d') ↦ some (b, ip, to_log blk (put_word blk bn b d'))
    ]
    else some (word_at (d.bytes blk) bn, ip, d)

-- `none` is a panic, also that for a number out of range.
unfoldable pub bmap : ℕ → Inode → Disk → Option (ℕ × Inode × Disk)
bmap bn ip d =
    if ltb bn ndirect
    then ensure_addr bn ip d
    else if ltb (bn - ndirect) nindirect
    then elim (ensure_addr ndirect ip d) [
      | none ↦ none
      | some (blk, ip', d') ↦ ensure_entry blk (bn - ndirect) ip' d'
    ]
    else none

-- `n` bytes of a block from index `i` on.
abbrev pub chunk : (ℕ → ℕ) → (i n : ℕ) → List ℕ
chunk f i zero = []
chunk f i (suc n) = f i ∷ chunk f (i + 1) n

-- `min(n - tot, BSIZE - off%BSIZE)`
abbrev pub round : (off left : ℕ) → ℕ
round off left = min left (bsize - off % bsize)

-- The loop of `readi` with `left` bytes to go; there are no more rounds than bytes. `none` is a panic.
unfoldable pub read_loop : (fuel off left : ℕ) → Inode → Disk → Option (List ℕ × Inode × Disk)
read_loop zero off left ip d = some ([], ip, d)
read_loop (suc fuel) off left ip d =
    if left == 0 then some ([], ip, d) else elim (bmap (off / bsize) ip d) [
      | none ↦ none
      | some (b, ip', d') ↦
          (let m = round off left in
            elim (read_loop fuel (off + m) (left - m) ip' d') [
              | none ↦ none
              | some (xs, ip'', d'') ↦ some (chunk (d'.bytes b) (off % bsize) m ++ xs, ip'', d'')
            ])
    ]

-- How `readi` and `writei` end when they do not panic; `by_device` is what the device's function answers.
pub data Moved : Type 0 where
  done : ℕ → Moved
  refused : Moved
  by_device : (major : ℕ) → Moved

-- The branch for a device file: its function is called, where `has` says that `devsw` has one.
abbrev pub ndev : ℕ
ndev = 10

abbrev pub ask_device : (has : ℕ → Bool) → Inode → Moved
ask_device has ip = if ltb ip.major ndev && has ip.major then by_device ip.major else refused

-- `readi` of `n` bytes from `off` on: the answer, and the bytes at `dst`. `has` says for which major
-- numbers `devsw` has a `read`.
unfoldable pub readi :
    (has : ℕ → Bool) (off n : ℕ) → Inode → Disk → Option (Moved × List ℕ × Inode × Disk)
readi has off n ip d =
    if is_device ip.kind
    then some (ask_device has ip, [], ip, d)
    else if ltb ip.size off || ltb ((off + n) % 2 ^ 32) off
    then some (refused, [], ip, d)
    else (let m = if ltb ip.size (off + n) then ip.size - off else n in
        elim (read_loop m off m ip d) [
          | none ↦ none
          | some (xs, ip', d') ↦ some (done m, xs, ip', d')
        ])

-- `memmove(bp->data + i, src, m)` in block `b`.
unfoldable pub put_bytes : (b i m : ℕ) → (ℕ → ℕ) → Disk → Disk
put_bytes b i m src d = record d {
  bytes = λ x y. if x == b && (leb i y && ltb y (i + m)) then src (y - i) else d.bytes x y;
}

-- The loop of `writei`, from byte `at` of the source on.
unfoldable pub write_loop : (fuel at off left : ℕ) → (ℕ → ℕ) → Inode → Disk → Option (Inode × Disk)
write_loop zero at off left src ip d = some (ip, d)
write_loop (suc fuel) at off left src ip d =
    if left == 0 then some (ip, d) else elim (bmap (off / bsize) ip d) [
      | none ↦ none
      | some (b, ip', d') ↦
          (let m = round off left in
            write_loop fuel (at + m) (off + m) (left - m) src ip'
              (to_log b (put_bytes b (off % bsize) m (λ k. src (at + k)) d')))
    ]

-- `iupdate`: the disk's copy follows the inode. `iblock` is the block that has it.
abbrev pub iupdate : (iblock : ℕ) → Inode → Store → Store
iupdate iblock ip s = record { disk = to_log iblock s.disk; stored = ip }

-- `writei` of the `n` bytes at `src` from `off` on.
unfoldable pub writei :
    (has : ℕ → Bool) (iblock off n : ℕ) → (ℕ → ℕ) → Inode → Store → Option (Moved × Inode × Store)
writei has iblock off n src ip s =
    if is_device ip.kind
    then some (ask_device has ip, ip, s)
    else if ltb ip.size off || ltb ((off + n) % 2 ^ 32) off
    then some (refused, ip, s)
    else if ltb (maxfile * bsize) (off + n)
    then some (refused, ip, s)
    else elim (write_loop n 0 off n src ip s.disk) [
      | none ↦ none
      | some (ip', d) ↦
          (let ip'' = record ip' { size = off + n } in
            if ltb 0 n && ltb ip'.size (off + n)
            then some (done n, ip'', iupdate iblock ip'' (record s { disk = d }))
            else some (done n, ip', record s { disk = d }))
    ]

-- `writei` with the panic of `log_write` (log.c): it has panicked on the way exactly when not all the
-- blocks logged by the end found room. `room` is the lesser of LOGSIZE and `log.size - 1`.
unfoldable pub writei_in_log :
    (room : ℕ) (has : ℕ → Bool) (iblock off n : ℕ)
    → (ℕ → ℕ)
    → Inode
    → Store
    → Option (Moved × Inode × Store)
writei_in_log room has iblock off n src ip s = elim (writei has iblock off n src ip s) [
  | none ↦ none
  | some (m, ip', s') ↦ if log_fits room s'.disk.logged then some (m, ip', s') else none
]
