-- ===== src/Path/Split.antt =====
-- The parts of a path that `skipelem` of fs.c is given.
use col.Base.{
  subst, sym, ◌∙◌, ◌↔◌, none, some, Bool, Bool-cases, List, [], ap, arith, false, inl, inr, not,
  refl, take, true, ℕ, ◌&&◌, ◌++◌, ◌==◌, ◌∷◌, ◌≡◌, ◌≢◌, ◌⊎◌,
}
use col.Path.{split_elem, skipelem, dirsiz, slash, drop_slashes, pass_elem}

abbrev pub only_slashes : List ℕ → Bool
only_slashes [] = true
only_slashes (c ∷ path) = c == slash && only_slashes path

abbrev pub no_slash : List ℕ → Bool
no_slash [] = true
no_slash (c ∷ path) = not (c == slash) && no_slash path

abbrev pub starts_with_slash : List ℕ → Bool
starts_with_slash [] = false
starts_with_slash (c ∷ path) = c == slash

-- A path is slashes, an element without slashes, slashes, and the rest, which starts with none.
pub record IsSplit (path rest name : List ℕ) : Type 0 where
  pub before : List ℕ
  pub elem_bytes : List ℕ
  pub between : List ℕ
  pub whole : path ≡ before ++ (elem_bytes ++ (between ++ rest))
  pub slashes : (only_slashes before ≡ true) × (only_slashes between ≡ true)
  pub elem_clean : (no_slash elem_bytes ≡ true) × (elem_bytes ≢ [])
  pub rest_clean : starts_with_slash rest ≡ false
  pub apart : (between ≢ []) ⊎ (rest ≡ [])
  pub name_elem : name ≡ take dirsiz elem_bytes

drop_slashes_lem :
    (path : List ℕ)
    → (s : List ℕ) × (path ≡ s ++ drop_slashes path)
      × (only_slashes s ≡ true)
      × (starts_with_slash (drop_slashes path) ≡ false)
unfolding drop_slashes
drop_slashes_lem [] = ([], refl, refl, refl)
drop_slashes_lem (c ∷ path) =
    let (s, e, o, n) = drop_slashes_lem path in
    elim (Bool-cases (c == slash)) [
      | inl h ↦ rw h (c ∷ s, ap (λ p. c ∷ p) e, ground arith, n)
      | inr h ↦ rw h ([], refl, refl, h)
    ]

pass_elem_lem :
    (path : List ℕ)
    → let (elem, rest) = pass_elem path in
      (path ≡ elem ++ rest)
      × (no_slash elem ≡ true)
      × ((starts_with_slash rest ≡ true) ⊎ (rest ≡ []))
unfolding pass_elem
pass_elem_lem [] = (refl, refl, inr refl)
pass_elem_lem (c ∷ path) =
    let (e, o, n) = pass_elem_lem path in
    elim (Bool-cases (c == slash)) [
      | inl h ↦ rw h (refl, refl, inl h)
      | inr h ↦ rw h (ap (λ p. c ∷ p) e, ground arith, n)
    ]

pass_elem-nonempty : (c : ℕ) (path : List ℕ) → (c == slash) ≡ false → (pass_elem (c ∷ path)).0 ≢ []
unfolding pass_elem
pass_elem-nonempty c path h = rw h (λ e. cc)

-- The slashes behind an element, when the element ends at a slash or at the end.
between_apart :
    (rest s : List ℕ)
    → (starts_with_slash rest ≡ true) ⊎ (rest ≡ [])
    → rest ≡ s ++ drop_slashes rest
    → starts_with_slash (drop_slashes rest) ≡ false
    → (s ≢ []) ⊎ (drop_slashes rest ≡ [])
unfolding drop_slashes
between_apart rest [] (inl h) e n = cc
between_apart rest (c ∷ s) (inl h) e n = inl (λ q. cc)
between_apart rest s (inr z) e n = inr (ap drop_slashes z)

split_elem-IsSplit :
    (path rest name before tail : List ℕ)
    → path ≡ before ++ tail
    → only_slashes before ≡ true
    → starts_with_slash tail ≡ false
    → split_elem tail ≡ some (rest, name)
    → IsSplit path rest name
split_elem-IsSplit path rest name before [] w o n e = cc
split_elem-IsSplit path rest name before (c ∷ tail) w o n e =
    let (q, clean, end) = pass_elem_lem (c ∷ tail) in
    let left : List ℕ = (pass_elem (c ∷ tail)).1 in
    let (s, q', o', n') = drop_slashes_lem left in
    let back : rest ≡ drop_slashes left = ground arith in
    let named : name ≡ take dirsiz (pass_elem (c ∷ tail)).0 = ground arith in
    record {
      before = before;
      elem_bytes = (pass_elem (c ∷ tail)).0;
      between = s;
      whole =
          w
          ∙ ap (λ p. before ++ p)
              (q ∙ ap (λ p. (pass_elem (c ∷ tail)).0 ++ p) (q' ∙ ap (λ p. s ++ p) (sym back)));
      slashes = (o, o');
      elem_clean = (clean, pass_elem-nonempty c tail n);
      rest_clean = ap starts_with_slash back ∙ n';
      apart = subst (λ p. (s ≢ []) ⊎ (p ≡ [])) (sym back) (between_apart left s end q' n');
      name_elem = named;
    }

-- Where `skipelem` finds an element, the path is slashes, the element, slashes and the rest that it
-- returns; the element has no slash and is not empty, the rest starts with none and stands apart from
-- it, and the name is the first DIRSIZ bytes of the element.
pub skipelem-IsSplit :
    (path rest name : List ℕ) → skipelem path ≡ some (rest, name) → IsSplit path rest name
unfolding skipelem
skipelem-IsSplit path rest name e =
    let (s, w, o, n) = drop_slashes_lem path in
    split_elem-IsSplit path rest name s (drop_slashes path) w o n e

drop_slashes-empty : (path : List ℕ) → (drop_slashes path ≡ []) ↔ (only_slashes path ≡ true)
unfolding drop_slashes
drop_slashes-empty [] = ((λ h. refl), λ h. refl)
drop_slashes-empty (c ∷ path) =
    let (to, from) = drop_slashes-empty path in
    elim (Bool-cases (c == slash)) [ inl h ↦ rw h (to, from) | inr h ↦ rw h ((λ e. cc), λ e. cc) ]

split_elem-none : (tail : List ℕ) → (split_elem tail ≡ none) ↔ (tail ≡ [])
split_elem-none [] = ((λ h. refl), λ h. refl)
split_elem-none (c ∷ tail) = ((λ h. cc), λ h. cc)

-- `skipelem` finds no element exactly when the path is empty or has slashes only.
pub skipelem-none : (path : List ℕ) → (skipelem path ≡ none) ↔ (only_slashes path ≡ true)
unfolding skipelem
skipelem-none path =
    let (to, from) = drop_slashes-empty path in
    let (a, b) = split_elem-none (drop_slashes path) in ((λ h. to (a h)), λ h. b (from h))
