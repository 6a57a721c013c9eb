-- ===== src/Dir.antt =====
-- Directories in xv6-public_2/fs.c: `namecmp`, `dirlookup` and `dirlink`, over `readi` and `writei` of
-- Inode.antt. A name is the list of its bytes, with NUL behind its end. `iget` makes an inode of the
-- number that is found; here the number stands for it. `none` is a panic.
pub mod Names
pub mod Scan
pub mod Link
mod Tests
use col.Base.{
  Bool, List, Option, [], ◌∷◌, ◌&&◌, false, get_or, if◌then◌else◌, ltb, none, not, some, suc, true,
  zero, ℕ, ◌%◌, ◌*◌, ◌+◌, ◌/◌, ◌==◌,
}
use col.Path.{dirsiz}
use col.Disk.{Disk}
use col.Inode.{Inode, Store, FileType, directory, Moved, done, refused, by_device, readi, writei}

-- `sizeof(struct dirent)`
abbrev pub entry_size : ℕ
entry_size = 16

abbrev pub first_byte : List ℕ → ℕ
first_byte [] = 0
first_byte (c ∷ cs) = c

abbrev pub later_bytes : List ℕ → List ℕ
later_bytes [] = []
later_bytes (c ∷ cs) = cs

-- Whether `strncmp(s, t, n)` is 0.
unfoldable pub namecmp : ℕ → List ℕ → List ℕ → Bool
namecmp zero s t = true
namecmp (suc n) s t =
    let rest = namecmp n (later_bytes s) (later_bytes t) in
    if first_byte s == first_byte t then (if first_byte s == 0 then true else rest) else false

-- The `n` bytes that `strncpy` writes: those of the name up to a NUL, and NULs.
unfoldable pub strncpy_bytes : ℕ → List ℕ → List ℕ
strncpy_bytes zero t = []
strncpy_bytes (suc n) t =
    first_byte t ∷ strncpy_bytes n (if first_byte t == 0 then [] else later_bytes t)

abbrev pub is_directory : FileType → Bool
is_directory directory = true
is_directory _ = false

-- `de.inum` and `de.name` of the bytes of an entry.
abbrev pub inum_of : List ℕ → ℕ
inum_of xs = get_or xs 0 0 + 256 * get_or xs 1 0

abbrev pub name_of : List ℕ → List ℕ
name_of xs = later_bytes (later_bytes xs)

abbrev pub is_entry_size : Moved → Bool
is_entry_size (done n) = n == entry_size
is_entry_size refused = false
is_entry_size (by_device m) = false

-- The loop over the entries from `off` on, up to one that passes the test: that entry if there is one, and
-- where the loop stopped. There are no more rounds than bytes.
unfoldable pub scan :
    (ℕ → Bool)
    → (List ℕ → Bool)
    → (fuel off : ℕ) → Inode
    → Disk
    → Option (Option (List ℕ) × ℕ × Inode × Disk)
scan has test zero off dp d = some (none, off, dp, d)
scan has test (suc fuel) off dp d =
    if ltb off dp.size
    then elim (readi has off entry_size dp d) [
      | none ↦ none
      | some (r, xs, dp', d') ↦ elim (is_entry_size r) [
        | false ↦ none
        | true ↦ elim (test xs) [
          | true ↦ some (some xs, off, dp', d')
          | false ↦ scan has test fuel (off + entry_size) dp' d'
        ]
      ]
    ]
    else some (none, off, dp, d)

abbrev pub matches : List ℕ → List ℕ → Bool
matches name xs = not (inum_of xs == 0) && namecmp dirsiz name (name_of xs)

-- The number of the entry with this name, and where it stands.
unfoldable pub dirlookup :
    (ℕ → Bool) → List ℕ → Inode → Disk → Option (Option (ℕ × ℕ) × Inode × Disk)
dirlookup has name dp d =
    if not (is_directory dp.kind) then none else elim (scan has (matches name) dp.size 0 dp d) [
      | none ↦ none
      | some (none, _, dp', d') ↦ some (none, dp', d')
      | some (some xs, off, dp', d') ↦ some (some (inum_of xs, off), dp', d')
    ]

abbrev pub is_empty : List ℕ → Bool
is_empty xs = inum_of xs == 0

-- The entry that `dirlink` writes.
abbrev pub new_entry : List ℕ → ℕ → List ℕ
new_entry name inum = (inum % 256) ∷ (inum / 256 % 256) ∷ strncpy_bytes dirsiz name

-- `writei` of the new entry.
unfoldable pub put_entry :
    (ℕ → Bool) → (iblock off : ℕ) → List ℕ → ℕ → Inode → Store → Option (Bool × Inode × Store)
put_entry has iblock off name inum dp s =
    elim (writei has iblock off entry_size (λ k. get_or (new_entry name inum) k 0) dp s) [
      | none ↦ none
      | some (r, dp', s') ↦ elim (is_entry_size r) [ false ↦ none | true ↦ some (true, dp', s') ]
    ]

-- Whether the entry was written: it is not where the name is there already.
unfoldable pub dirlink :
    (ℕ → Bool) → (iblock : ℕ) → List ℕ → ℕ → Inode → Store → Option (Bool × Inode × Store)
dirlink has iblock name inum dp s = elim (dirlookup has name dp s.disk) [
  | none ↦ none
  | some (some _, dp', d') ↦ some (false, dp', record s { disk = d' })
  | some (none, dp', d') ↦ elim (scan has is_empty dp'.size 0 dp' d') [
    | none ↦ none
    | some (_, off, dp'', d'') ↦ put_entry has iblock off name inum dp'' (record s { disk = d'' })
  ]
]
