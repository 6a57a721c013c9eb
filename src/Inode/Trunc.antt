-- ===== src/Inode/Trunc.antt =====
-- `itrunc` of fs.c.
pub mod FreeAll
pub mod Direct
pub mod Whole
pub mod Emptied
use col.Base.{Option, if◌then◌else◌, none, some, suc, zero, ℕ, ◌+◌, ◌==◌}
use col.Disk.{Disk, bfree}
use col.Inode.{ndirect, nindirect, Inode, Store, word_at, addr, put_addr, iupdate}

-- `if(ip->addrs[i]){ bfree; ip->addrs[i] = 0; }` for `i` direct addresses from `at` on.
unfoldable pub free_direct : (count at : ℕ) → Inode → Disk → Option (Inode × Disk)
free_direct zero at ip d = some (ip, d)
free_direct (suc count) at ip d =
    if addr ip at == 0 then free_direct count (at + 1) ip d else elim (bfree (addr ip at) d) [
      | none ↦ none
      | some d' ↦ free_direct count (at + 1) (put_addr at 0 ip) d'
    ]

-- The loop over the entries of the indirect block.
unfoldable pub free_entries : (count at : ℕ) → (ℕ → ℕ) → Disk → Option Disk
free_entries zero at a d = some d
free_entries (suc count) at a d =
    if word_at a at == 0
    then free_entries count (at + 1) a d
    else elim (bfree (word_at a at) d) [ none ↦ none | some d' ↦ free_entries count (at + 1) a d' ]

-- `itrunc` up to the call of `iupdate`.
unfoldable pub free_blocks : Inode → Disk → Option (Inode × Disk)
free_blocks ip d = elim (free_direct ndirect 0 ip d) [
  | none ↦ none
  | some (ip', d') ↦
      if addr ip' ndirect == 0
      then some (ip', d')
      else elim (free_entries nindirect 0 (d'.bytes (addr ip' ndirect)) d') [
        | none ↦ none
        | some d'' ↦ elim (bfree (addr ip' ndirect) d'') [
          | none ↦ none
          | some d3 ↦ some (put_addr ndirect 0 ip', d3)
        ]
      ]
]

unfoldable pub itrunc : (iblock : ℕ) → Inode → Store → Option (Inode × Store)
itrunc iblock ip s = elim (free_blocks ip s.disk) [
  | none ↦ none
  | some (ip', d) ↦
      (let ip'' = record ip' { size = 0 } in
        some (ip'', iupdate iblock ip'' (record s { disk = d })))
]
