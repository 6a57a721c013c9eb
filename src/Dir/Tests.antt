-- ===== src/Dir/Tests.antt =====
-- The directory's theorems at a directory of two entries.
use col.Base.{Bool, [], ◌∷◌, arith, false, refl, some, ℕ, ◌+◌, ◌≡◌, get_or}
use col.Disk.{to_log}
use col.Inode.{
  Inode, Store, directory, put_bytes, iupdate, writei, readi, write_loop, read_loop, bmap,
  ensure_addr,
}
use col.Inode.Sample.{four_blocks, file_of, file_of-IsWhole}
use col.Dir.{dirlookup, dirlink, scan, put_entry, new_entry, namecmp}
use col.Dir.Scan.{IsDir}
use col.Dir.Link.{dirlink-dirlookup}

abbrev folder : Inode
folder = file_of directory 32

folder-IsDir : IsDir four_blocks folder
folder-IsDir = record {
  whole = file_of-IsWhole directory 32 (omega arith);
  kind = refl;
  entries = refl;
}

abbrev nobody : ℕ → Bool
nobody _ = false

abbrev store : Store
store = record { disk = four_blocks; stored = folder }

abbrev longer : Inode
longer = file_of directory 48

abbrev store_after : Store
store_after = iupdate 3 longer (record store {
  disk = to_log 1 (put_bytes 1 32 16 (λ k. get_or (new_entry (97 ∷ []) 5) (0 + k) 0) four_blocks);
})

dirlink-dirlookup_example :
    IsDir store_after.disk longer
    × ((off : ℕ) × (dirlookup nobody (97 ∷ []) longer store_after.disk
          ≡ some (some (5, off), longer, store_after.disk)))
unfolding dirlink dirlookup scan readi read_loop bmap ensure_addr namecmp writei write_loop
    put_entry
dirlink-dirlookup_example =
    dirlink-dirlookup nobody 3 5 (97 ∷ []) folder longer store store_after folder-IsDir
      (omega arith) (omega arith) refl
