-- ===== src/Grep/Tests.antt =====
-- Runs of the matcher, and its theorems at inputs.
use col.Base.{true, false, ◌≡◌, ◌↔◌, refl, [], ◌∷◌}
use col.Grep.Language.{Found, match-decides}
use col.Grep.{match, matchhere, matchstar, match_from, char_fits}

-- the pattern `^a*b$` on `aab`, and `b.` on `abc`, `ab`
anchored_run : match (b'^' ∷ b'a' ∷ b'*' ∷ b'b' ∷ b'$' ∷ []) (b'a' ∷ b'a' ∷ b'b' ∷ []) ≡ true
unfolding match matchhere matchstar match_from char_fits
anchored_run = refl

dot_run : match (b'b' ∷ b'.' ∷ []) (b'a' ∷ b'b' ∷ b'c' ∷ []) ≡ true
unfolding match matchhere matchstar match_from char_fits
dot_run = refl

dot_fails : match (b'b' ∷ b'.' ∷ []) (b'a' ∷ b'b' ∷ []) ≡ false
unfolding match matchhere matchstar match_from char_fits
dot_fails = refl

match-decides_example :
    (match (b'b' ∷ b'.' ∷ []) (b'a' ∷ b'b' ∷ b'c' ∷ []) ≡ true)
    ↔ Found (b'b' ∷ b'.' ∷ []) (b'a' ∷ b'b' ∷ b'c' ∷ [])
match-decides_example = match-decides (b'b' ∷ b'.' ∷ []) (b'a' ∷ b'b' ∷ b'c' ∷ [])
