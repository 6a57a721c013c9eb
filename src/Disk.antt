-- ===== src/Disk.antt =====
-- Disk blocks in xv6-public_2/fs.c: the free map and the contents of data blocks, with `bzero`,
-- `balloc` and `bfree`. mkfs.c lays the free map out apart from the data blocks, so it is a field of
-- its own here. A block is read and written through the buffer cache; `logged` has the block numbers
-- that went to `log_write` in the transaction, newest first. `log_write` panics when the header of the
-- log is full. As `logged` only grows, that test is made for all calls at once, by `log_fits`, at the
-- end of the operation (`writei_in_log` of Inode.antt). There is one device.
pub mod Bits
pub mod Search
pub mod Blocks
pub mod Count
pub mod LogRoom
use col.Base.{
  [], Bool, false, true, ◌||◌, List, Option, if◌then◌else◌, ltb, none, some, suc, zero, ℕ, ◌%◌,
  ◌&&◌, ◌*◌, ◌+◌, ◌-◌, ◌/◌, ◌==◌, ◌^◌, ◌∷◌,
}

-- BSIZE and BPB.
abbrev pub bsize : ℕ
bsize = 512

abbrev pub bpb : ℕ
bpb = bsize * 8

-- The superblock's `size` and `bmapstart`, the bytes of the free map by map block and index, and the
-- bytes of the other blocks.
pub record Disk : Type 0 where
  pub size : ℕ
  pub bmapstart : ℕ
  pub free_map : ℕ → ℕ → ℕ
  pub bytes : ℕ → ℕ → ℕ
  pub logged : List ℕ

abbrev pub put_at : (ℕ → ℕ → ℕ) → ℕ → ℕ → ℕ → ℕ → ℕ → ℕ
put_at f i j v x y = if x == i && y == j then v else f x y

-- `log.lh.n` after these calls of `log_write`: a block that is logged again is absorbed.
abbrev pub is_logged : ℕ → List ℕ → Bool
is_logged b [] = false
is_logged b (x ∷ xs) = x == b || is_logged b xs

unfoldable pub lh_n : List ℕ → ℕ
lh_n [] = 0
lh_n (b ∷ bs) = let n = lh_n bs in if is_logged b bs then n else n + 1

-- Each of these calls found `lh.n` below `room`, which is the lesser of LOGSIZE and `log.size - 1`, and
-- so did not panic.
unfoldable pub log_fits : (room : ℕ) → List ℕ → Bool
log_fits room [] = true
log_fits room (b ∷ bs) = ltb (lh_n bs) room && log_fits room bs

-- A call of `log_write`, but for its panic.
abbrev pub to_log : ℕ → Disk → Disk
to_log b d = record d { logged = b ∷ d.logged }

-- BBLOCK
abbrev pub bblock : Disk → ℕ → ℕ
bblock d b = b / bpb + d.bmapstart

unfoldable pub bzero : ℕ → Disk → Disk
bzero bno d = to_log bno (record d { bytes = λ x y. if x == bno then 0 else d.bytes x y })

-- `bp->data[bi/8] & (1 << (bi % 8))`, as 0 or 1, for the bit of block `b`.
abbrev pub bit : Disk → ℕ → ℕ
bit d b = d.free_map (b / bpb) (b % bpb / 8) / 2 ^ (b % bpb % 8) % 2

-- `|= m` where the bit is clear.
unfoldable pub mark : ℕ → Disk → Disk
mark b d =
    let byte = d.free_map (b / bpb) (b % bpb / 8) in
    record d { free_map = put_at d.free_map (b / bpb) (b % bpb / 8) (byte + 2 ^ (b % bpb % 8)) }

-- `&= ~m` where the bit is set.
unfoldable pub unmark : ℕ → Disk → Disk
unmark b d =
    let byte = d.free_map (b / bpb) (b % bpb / 8) in
    record d { free_map = put_at d.free_map (b / bpb) (b % bpb / 8) (byte - 2 ^ (b % bpb % 8)) }

-- The inner loop of `balloc` in the map block of block `b`, with `k` bits to go from `bi` on.
unfoldable pub find_bit : ℕ → Disk → (b bi : ℕ) → Option ℕ
find_bit zero d b bi = none
find_bit (suc k) d b bi =
    let rest = find_bit k d b (bi + 1) in
    if ltb (b + bi) d.size then (if bit d (b + bi) == 0 then some (b + bi) else rest) else none

abbrev pub or_else {ℓ} : {A : Type ℓ} → Option A → Option A → Option A
or_else (some x) o = some x
or_else none o = o

-- The outer loop from block `b` on. There are no more rounds than blocks.
unfoldable pub find_free : ℕ → Disk → (b : ℕ) → Option ℕ
find_free zero d b = none
find_free (suc k) d b =
    let rest = find_free k d (b + bpb) in
    if ltb b d.size then or_else (find_bit bpb d b 0) rest else none

-- `none` is the panic, here and in `bfree`.
unfoldable pub balloc : Disk → Option (ℕ × Disk)
balloc d = elim (find_free d.size d 0) [
  | none ↦ none
  | some b ↦ some (b, bzero b (to_log (bblock d b) (mark b d)))
]

unfoldable pub bfree : ℕ → Disk → Option Disk
bfree b d = if bit d b == 0 then none else some (to_log (bblock d b) (unmark b d))
