-- ===== src/Path/Tests.antt =====
-- The examples in the comment on `skipelem`.
use col.Base.{List, [], refl, some, ℕ, ◌∷◌, ◌≡◌}
use col.Path.{skipelem, drop_slashes, pass_elem}
use col.Path.Split.{IsSplit, skipelem-IsSplit}

-- `///a//bb`
abbrev path : List ℕ
path = b'/' ∷ b'/' ∷ b'/' ∷ b'a' ∷ b'/' ∷ b'/' ∷ b'b' ∷ b'b' ∷ []

skipelem_run : skipelem path ≡ some (b'b' ∷ b'b' ∷ [], b'a' ∷ [])
unfolding skipelem drop_slashes pass_elem
skipelem_run = refl

skipelem-IsSplit_example : IsSplit path (b'b' ∷ b'b' ∷ []) (b'a' ∷ [])
skipelem-IsSplit_example = skipelem-IsSplit path (b'b' ∷ b'b' ∷ []) (b'a' ∷ []) skipelem_run
