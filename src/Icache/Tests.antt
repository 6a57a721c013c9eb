-- ===== src/Icache/Tests.antt =====
-- The inode cache with one file.
use col.Base.{◌≡◌, [], some, ◌∷◌, refl, arith, true, false, replicate}
use col.Icache.{
  Dinode, Inode, Cache, Reach, start, later, gets, iget, scan, chmod_actual, recycle, put_inode,
}
use col.Icache.Entries.{IsCoherent}
use col.Icache.Coherent.{Reach-IsCoherent}
use col.Icache.Chmod.{HasMode, chmod_actual-HasMode}

abbrev file_five : Dinode
file_five = record {
  inode_type = 2;
  major = 0;
  minor = 0;
  nlink = 1;
  size = 100;
  mode = 7;
  addrs = replicate 12 0;
}

abbrev unused : Inode
unused = record { dev = 0; inum = 0; ref = 0; valid = false; copy = file_five }

abbrev empty_cache : Cache
empty_cache = record { inode = λ i. unused; disk = λ x y. file_five }

-- After `iget(1, 5)`.
abbrev one_entry : Cache
one_entry = put_inode 0 (recycle 1 5 unused) empty_cache

one_entry-Reach : Reach one_entry
unfolding iget scan
one_entry-Reach = later (start empty_cache (λ i. refl)) (gets 1 5 refl)

Reach-IsCoherent_example : IsCoherent one_entry
Reach-IsCoherent_example = Reach-IsCoherent one_entry-Reach

-- `chmod 5 file`: to be read and run, not to be written.
chmod_actual-HasMode_example :
    (t : Cache) × (chmod_actual (b'f' ∷ []) 5 (some 0) one_entry ≡ some (t, true))
    × HasMode 1 5 5 one_entry t
chmod_actual-HasMode_example =
    chmod_actual-HasMode (b'f' ∷ []) 5 0 one_entry one_entry-Reach refl (omega arith) (omega arith)
      (omega arith) (omega arith)
