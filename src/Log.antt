-- ===== src/Log.antt =====
-- The write-ahead log of xv6-public_2/log.c. A disk block is its list of 32-bit words. The buffer
-- cache shows here only by what it holds back from the disk: `cache b` is the content of a pinned
-- (B_DIRTY) buffer, and a block that is not pinned reads as on the disk. One block write is atomic.
pub mod Words
pub mod Disk
pub mod Recovery
pub mod Commit
pub mod Space
pub mod Entries
pub mod Room
mod Tests
use col.Base.{
  Bool, List, Option, count_up, false, get_or, if◌then◌else◌, leb, ltb, none, set, some, suc, true,
  zero, ℕ, ◌*◌, ◌+◌, ◌-◌, ◌==◌, ◌||◌, ◌∷◌,
}

abbrev pub Block : Type 0
Block = List ℕ

abbrev pub logsize : ℕ
logsize = 30

abbrev pub maxopblocks : ℕ
maxopblocks = 10

abbrev pub update {ℓ} : {A : Type ℓ} → (ℕ → A) → ℕ → A → ℕ → A
update f b v x = if x == b then v else f x

-- `struct log` with its header `lh` (`n`, `block`), the disk, and the pinned buffers. `past` has the
-- disks that the machine went through, newest first: what a crash at some moment leaves behind.
pub record Fs : Type 0 where
  pub disk : ℕ → Block
  pub cache : ℕ → Option Block
  pub past : List (ℕ → Block)
  pub start : ℕ
  pub size : ℕ
  pub outstanding : ℕ
  pub committing : Bool
  pub n : ℕ
  pub block : List ℕ

-- The data of the buffer that `bread` returns.
abbrev pub bread : Fs → ℕ → Block
bread s b = elim (s.cache b) [ some v ↦ v | none ↦ s.disk b ]

-- `bwrite` of a buffer with data `v`: it is on the disk, and no longer dirty.
abbrev pub bwrite : Fs → ℕ → Block → Fs
bwrite s b v = record s {
  disk = update s.disk b v;
  cache = update s.cache b none;
  past = update s.disk b v ∷ s.past;
}

abbrev pub home : Fs → ℕ → ℕ
home s tail = get_or s.block tail 0

-- One round of the loop of `install_trans`.
abbrev pub install_one : ℕ → Fs → Fs
install_one tail s = bwrite s (home s tail) (bread s (s.start + tail + 1))

pub install_trans : Fs → Fs
install_trans s = count_up s.n 0 install_one s

-- `hb->n` is word 0 of the header block, `hb->block[i]` word `i + 1`.
abbrev pub read_entry : Block → ℕ → List ℕ → List ℕ
read_entry hb i block = set block i (get_or hb (i + 1) 0)

pub read_head : Fs → Fs
read_head s =
    let hb = bread s s.start in
    record s { n = get_or hb 0 0; block = count_up (get_or hb 0 0) 0 (read_entry hb) s.block }

abbrev pub write_entry : List ℕ → ℕ → Block → Block
write_entry block i hb = set hb (i + 1) (get_or block i 0)

pub header : Fs → Block
header s = count_up s.n 0 (write_entry s.block) (set (bread s s.start) 0 s.n)

pub write_head : Fs → Fs
write_head s = bwrite s s.start (header s)

pub recover_from_log : Fs → Fs
recover_from_log s = write_head (record (install_trans (read_head s)) { n = 0 })

-- One round of the loop of `write_log`.
abbrev pub log_one : ℕ → Fs → Fs
log_one tail s = bwrite s (s.start + tail + 1) (bread s (home s tail))

pub write_log : Fs → Fs
write_log s = count_up s.n 0 log_one s

pub commit : Fs → Fs
commit s =
    if ltb 0 s.n
    then write_head (record (install_trans (write_head (write_log s))) { n = 0 })
    else s

-- One try of the loop of `begin_op`; `none` is the sleep.
pub begin_op : Fs → Option Fs
begin_op s =
    if s.committing
    then none
    else if ltb logsize (s.n + (s.outstanding + 1) * maxopblocks)
    then none
    else some (record s { outstanding = s.outstanding + 1 })

-- `none` is the panic. Called inside an operation, so `outstanding` is not 0. `committing` is set while `commit` runs without the lock.
pub end_op : Fs → Option Fs
end_op s =
    if s.committing
    then none
    else if s.outstanding == 1
    then some
        (record (commit (record s { outstanding = 0; committing = true })) { committing = false })
    else some (record s { outstanding = s.outstanding - 1 })

-- The index at which the loop of `log_write` stops, from `i` on with `k` entries left.
pub find_entry : ℕ → ℕ → List ℕ → ℕ → ℕ
find_entry zero i block b = i
find_entry (suc k) i block b =
    let next = find_entry k (i + 1) block b in if get_or block i 0 == b then i else next

-- The locked part of `log_write` for block `b` with data `v`: an entry, unless there is one
-- already, and the pin.
pub add_entry : Fs → ℕ → Block → Fs
add_entry s b v =
    let i = find_entry s.n 0 s.block b in
    record s {
      n = if i == s.n then s.n + 1 else s.n;
      block = set s.block i b;
      cache = update s.cache b (some v);
    }

-- `log_write` of a buffer for block `b` whose data is now `v`; `none` is a panic.
pub log_write : Fs → ℕ → Block → Option Fs
log_write s b v =
    if leb logsize s.n || leb (s.size - 1) s.n
    then none
    else if ltb s.outstanding 1
    then none
    else some (add_entry s b v)
