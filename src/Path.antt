-- ===== src/Path.antt =====
-- The splitting of path names in xv6-public_2/fs.c. A path is the list of its bytes before the NUL, and
-- `name` the bytes of the buffer of DIRSIZ bytes, up to a NUL if there is one.
pub mod Split
mod Tests
use col.Base.{List, Option, [], if◌then◌else◌, none, some, take, ℕ, ◌==◌, ◌∷◌}

abbrev pub dirsiz : ℕ
dirsiz = 14

abbrev pub slash : ℕ
slash = b'/'

-- `while(*path == '/') path++`
unfoldable pub drop_slashes : List ℕ → List ℕ
drop_slashes [] = []
drop_slashes (c ∷ path) = let rest = drop_slashes path in if c == slash then rest else c ∷ path

-- `while(*path != '/' && *path != 0) path++`: the bytes passed over, and the others.
unfoldable pub pass_elem : List ℕ → List ℕ × List ℕ
pass_elem [] = ([], [])
pass_elem (c ∷ path) =
    let (elem, rest) = pass_elem path in if c == slash then ([], c ∷ path) else (c ∷ elem, rest)

-- What follows when the leading slashes are gone.
abbrev pub split_elem : List ℕ → Option (List ℕ × List ℕ)
split_elem [] = none
split_elem (c ∷ path) =
    let (elem, rest) = pass_elem (c ∷ path) in some (drop_slashes rest, take dirsiz elem)

-- The path behind the element, and `name`; `none` for 0.
unfoldable pub skipelem : List ℕ → Option (List ℕ × List ℕ)
skipelem path = split_elem (drop_slashes path)
