-- ===== src/Icache.antt =====
-- The inode cache of xv6-public_1/fs.c, and the permission bits that this kernel keeps in an inode:
-- `chmod_actual` and the tests of `exec`, `sys_read` and `sys_write`. What `bread` sees on the disk is
-- one record for each device and inode number. Each function stands for a stretch of code that holds
-- `icache.lock` or the inode's lock; the data blocks of an inode are left out.
pub mod Lookup
pub mod Entries
pub mod Coherent
pub mod Chmod
mod Tests
use col.Base.{
  Bool, List, Option, [], false, if◌then◌else◌, leb, ltb, none, not, replicate, some, suc, true,
  zero, ℕ, ◌%◌, ◌&&◌, ◌+◌, ◌-◌, ◌/◌, ◌==◌, ◌||◌, ◌≡◌, ◌≢◌, ◌<◌, ◌∷◌,
}

abbrev pub ninode : ℕ
ninode = 50

-- The fields that `struct dinode` and `struct inode` share; `inode_type` is 0 for a free inode.
pub record Dinode : Type 0 where
  pub inode_type : ℕ
  pub major : ℕ
  pub minor : ℕ
  pub nlink : ℕ
  pub size : ℕ
  pub mode : ℕ
  pub addrs : List ℕ

-- `struct inode`, without its lock.
pub record Inode : Type 0 where
  pub dev : ℕ
  pub inum : ℕ
  pub ref : ℕ
  pub valid : Bool
  pub copy : Dinode

pub record Cache : Type 0 where
  pub inode : ℕ → Inode
  pub disk : (dev inum : ℕ) → Dinode

abbrev pub put_inode : ℕ → Inode → Cache → Cache
put_inode i ip s = record s { inode = λ j. if j == i then ip else s.inode j }

abbrev pub put_dinode : (dev inum : ℕ) → Dinode → Cache → Cache
put_dinode dev inum d s = record s { disk = λ x y. if x == dev && y == inum then d else s.disk x y }

-- Where `iget` ends up: at a cached inode, at the first free entry, or in the panic.
pub data Place : Type 0 where
  cached recycled : ℕ → Place
  no_inodes : Place

-- The test in the loop.
abbrev pub is_cached : (dev inum : ℕ) → Inode → Bool
is_cached dev inum ip = ltb 0 ip.ref && (ip.dev == dev && ip.inum == inum)

-- `empty`, after an entry
abbrev pub remember : Option ℕ → ℕ → Inode → Option ℕ
remember (some e) i ip = some e
remember none i ip = if ip.ref == 0 then some i else none

abbrev pub place_of : Option ℕ → Place
place_of none = no_inodes
place_of (some e) = recycled e

-- The loop, with `left` entries to go.
unfoldable pub scan : (left i dev inum : ℕ) → (ℕ → Inode) → Option ℕ → Place
scan zero i dev inum inode empty = place_of empty
scan (suc left) i dev inum inode empty =
    let rest = scan left (i + 1) dev inum inode (remember empty i (inode i)) in
    if is_cached dev inum (inode i) then cached i else rest

-- `ip->mode = 7`, on top of what the entry had.
abbrev pub recycle : (dev inum : ℕ) → Inode → Inode
recycle dev inum ip = record {
  dev = dev;
  inum = inum;
  ref = 1;
  valid = false;
  copy = record ip.copy { mode = 7 };
}

abbrev pub take : (dev inum : ℕ) → Cache → Place → Option (Cache × ℕ)
take dev inum s no_inodes = none
take dev inum s (cached i) =
    some (put_inode i (record (s.inode i) { ref = (s.inode i).ref + 1 }) s, i)
take dev inum s (recycled i) = some (put_inode i (recycle dev inum (s.inode i)) s, i)

-- `none` is the panic.
unfoldable pub iget : (dev inum : ℕ) → Cache → Option (Cache × ℕ)
iget dev inum s = take dev inum s (scan ninode 0 dev inum s.inode none)

pub idup : ℕ → Cache → Cache
idup i s = put_inode i (record (s.inode i) { ref = (s.inode i).ref + 1 }) s

-- Once the lock is held; `none` is a panic.
unfoldable pub ilock : ℕ → Cache → Option Cache
ilock i s =
    let ip = s.inode i in
    let d = s.disk ip.dev ip.inum in
    if ip.ref == 0
    then none
    else if ip.valid
    then some s
    else if d.inode_type == 0
    then none
    else some (put_inode i (record ip { copy = d; valid = true }) s)

unfoldable pub iupdate : ℕ → Cache → Cache
iupdate i s = put_dinode (s.inode i).dev (s.inode i).inum (s.inode i).copy s

-- What `itrunc` leaves of the fields.
abbrev pub emptied : Dinode → Dinode
emptied d = record d { addrs = replicate 12 0; size = 0 }

-- `itrunc(ip); ip->type = 0; iupdate(ip); ip->valid = 0;`
abbrev pub free_inode : ℕ → Cache → Cache
free_inode i s =
    let ip = s.inode i in
    let d = record (emptied ip.copy) { inode_type = 0 } in
    put_inode i (record ip { copy = d; valid = false }) (put_dinode ip.dev ip.inum d s)

abbrev pub drop_ref : ℕ → Cache → Cache
drop_ref i s = put_inode i (record (s.inode i) { ref = (s.inode i).ref - 1 }) s

unfoldable pub iput : ℕ → Cache → Cache
iput i s =
    let ip = s.inode i in
    if (ip.valid && ip.copy.nlink == 0) && ip.ref == 1
    then drop_ref i (free_inode i s)
    else drop_ref i s

abbrev pub fresh : ℕ → Dinode
fresh inode_type = record {
  inode_type = inode_type;
  major = 0;
  minor = 0;
  nlink = 0;
  size = 0;
  mode = 7;
  addrs = replicate 12 0;
}

-- The loop of `ialloc` from `inum` on, with `left` numbers to go; `none` is a panic.
pub ialloc_from : (left inum dev inode_type : ℕ) → Cache → Option (Cache × ℕ)
ialloc_from zero inum dev inode_type s = none
ialloc_from (suc left) inum dev inode_type s =
    let rest = ialloc_from left (inum + 1) dev inode_type s in
    if (s.disk dev inum).inode_type == 0
    then iget dev inum (put_dinode dev inum (fresh inode_type) s)
    else rest

unfoldable pub ialloc : (ninodes dev inode_type : ℕ) → Cache → Option (Cache × ℕ)
ialloc ninodes dev inode_type s = ialloc_from (ninodes - 1) 1 dev inode_type s

-- `strcmp(file, "chmod") == 0`
abbrev pub is_chmod : List ℕ → Bool
is_chmod (c ∷ d ∷ e ∷ f ∷ g ∷ []) = c == b'c' && d == b'h' && e == b'm' && f == b'o' && g == b'd'
is_chmod _ = false

abbrev pub set_mode : ℕ → ℕ → Cache → Cache
set_mode mode i s =
    put_inode i (record (s.inode i) { copy = record (s.inode i).copy { mode = mode } }) s

abbrev pub after_ilock : (mode i : ℕ) → Option Cache → Option (Cache × Bool)
after_ilock mode i none = none
after_ilock mode i (some s) = some (iput i (iupdate i (set_mode mode i s)), true)

-- `found` is the answer of `namei(file)`, and `s` the state after it. The new state, and whether the
-- answer is 0; `none` is a panic. The unsigned `mode` of a negative number is above 7.
unfoldable pub chmod_actual :
    (file : List ℕ) (mode : ℕ) (found : Option ℕ) → Cache → Option (Cache × Bool)
chmod_actual file mode found s =
    if is_chmod file
    then some (s, false)
    else if ltb 7 mode
    then some (s, false)
    else elim found [ none ↦ some (s, false) | some i ↦ after_ilock mode i (ilock i s) ]

-- `ip->mode & 1` of `sys_read`, `& 2` of `sys_write`, `& 4` of `exec`.
abbrev pub may_read : Dinode → Bool
may_read d = d.mode % 2 == 1

abbrev pub may_write : Dinode → Bool
may_write d = d.mode / 2 % 2 == 1

abbrev pub may_execute : Dinode → Bool
may_execute d = d.mode / 4 % 2 == 1

-- One call of the file system on the cache. `updates` is a change of an inode in memory by the code
-- that has locked it, with the `iupdate` that follows.
pub data Step (s : Cache) : Cache → Type 0 where
  gets : (dev inum : ℕ) {t : Cache} {i : ℕ} → iget dev inum s ≡ some (t, i) → Step s t
  dups : (i : ℕ) → 0 < (s.inode i).ref → Step s (idup i s)
  locks : (i : ℕ) {t : Cache} → ilock i s ≡ some t → Step s t
  updates :
      (i : ℕ) (d : Dinode)
      → 0 < (s.inode i).ref
      → (s.inode i).valid ≡ true
      → d.inode_type ≢ 0
      → Step s (iupdate i (put_inode i (record (s.inode i) { copy = d }) s))
  puts : (i : ℕ) → 0 < (s.inode i).ref → Step s (iput i s)
  allocs :
      (ninodes dev inode_type : ℕ) {t : Cache} {i : ℕ}
      → ialloc ninodes dev inode_type s ≡ some (t, i)
      → Step s t

-- Nothing is cached after `iinit`; the disk is any.
pub data Reach : Cache → Type 0 where
  start : (s : Cache) → ((i : ℕ) → (s.inode i).ref ≡ 0) → Reach s
  later : {s t : Cache} → Reach s → Step s t → Reach t
