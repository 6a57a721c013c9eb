-- ===== src/Grep/Language.antt =====
-- The language of a pattern of grep.c, described without the matcher: a pattern is read as a list
-- of items, and a relation says which texts the items consume.
use col.Base.{
  ap, ℕ, Bool, true, ◌==◌, ◌||◌, if◌then◌else◌, List, [], ◌∷◌, ◌≡◌, refl, ◌++◌, inl, inr, ◌↔◌,
  arith, Bool-cases,
}
use col.Grep.{char_fits, matchstar, is_empty, step_char, matchhere, match_from, match}

pub data Item : Type 0 where
  once : ℕ → Item
  many : ℕ → Item
  at_end : Item

pub parse : List ℕ → List Item
parse [] = []
parse (c ∷ []) = (if c == b'$' then at_end else once c) ∷ []
parse (c ∷ d ∷ re) =
    let rest = parse (d ∷ re) in if d == b'*' then many c ∷ parse re else once c ∷ rest

-- `Consumes is text rest`: the items take `text` up to `rest`.
pub data Consumes : List Item → List ℕ → List ℕ → Type 0 where
  done : {text : List ℕ} → Consumes [] text text
  step :
      {c t : ℕ} {is : List Item} {text rest : List ℕ}
      → char_fits c t ≡ true
      → Consumes is text rest
      → Consumes (once c ∷ is) (t ∷ text) rest
  stop :
      {c : ℕ} {is : List Item} {text rest : List ℕ}
      → Consumes is text rest
      → Consumes (many c ∷ is) text rest
  more :
      {c t : ℕ} {is : List Item} {text rest : List ℕ}
      → char_fits c t ≡ true
      → Consumes (many c ∷ is) text rest
      → Consumes (many c ∷ is) (t ∷ text) rest
  finish : Consumes (at_end ∷ []) [] []

-- The items take some prefix of the text.
abbrev pub Starts : List Item → List ℕ → Type 0
Starts is text = (rest : List ℕ) × Consumes is text rest

star_fits : (c t : ℕ) → (t == c || c == b'.') ≡ char_fits c t
unfolding char_fits
star_fits c t = ground arith

module _ (here : List ℕ → Bool) (is : List Item) where
  abbrev Sound : Type 0
  Sound = (text : List ℕ) → here text ≡ true → Starts is text

  abbrev Complete : Type 0
  Complete = (text rest : List ℕ) → Consumes is text rest → here text ≡ true

step_char-Sound :
    (c : ℕ) (here : List ℕ → Bool) (is : List Item)
    → Sound here is
    → Sound (step_char c here) (once c ∷ is)
unfolding step_char
step_char-Sound c here is s [] h = cc
step_char-Sound c here is s (t ∷ text) h = elim (Bool-cases (char_fits c t)) [
  | inl e ↦ let (r, m) = s text (rw e at h) in (r, step e m)
  | inr e ↦ cc (rw e at h)
]

step_char-Complete :
    (c : ℕ) (here : List ℕ → Bool) (is : List Item)
    → Complete here is
    → Complete (step_char c here) (once c ∷ is)
unfolding step_char
step_char-Complete c here is k text rest (step e m) = rw e (k _ rest m)

matchstar-Sound :
    (c : ℕ) (here : List ℕ → Bool) (is : List Item)
    → Sound here is
    → Sound (matchstar c here) (many c ∷ is)
unfolding matchstar
matchstar-Sound c here is s [] h = let (r, m) = s [] h in (r, stop m)
matchstar-Sound c here is s (t ∷ text) h = elim (Bool-cases (here (t ∷ text))) [
  | inl e ↦ let (r, m) = s (t ∷ text) e in (r, stop m)
  | inr e ↦
      let h' = rw (e, star_fits c t) at h in
      elim (Bool-cases (char_fits c t)) [
        | inl f ↦ let (r, m) = matchstar-Sound c here is s text (rw f at h') in (r, more f m)
        | inr f ↦ cc (rw f at h')
      ]
]

matchstar-here :
    (c : ℕ) (here : List ℕ → Bool) (text : List ℕ) → here text ≡ true → matchstar c here text ≡ true
unfolding matchstar
matchstar-here c here [] h = h
matchstar-here c here (t ∷ text) h = rw h

matchstar-more :
    (c t : ℕ) (here : List ℕ → Bool) (text : List ℕ)
    → char_fits c t ≡ true
    → matchstar c here text ≡ true
    → matchstar c here (t ∷ text) ≡ true
unfolding matchstar
matchstar-more c t here text f h = rw (star_fits c t) (ground arith)

matchstar-Complete :
    (c : ℕ) (here : List ℕ → Bool) (is : List Item)
    → Complete here is
    → Complete (matchstar c here) (many c ∷ is)
matchstar-Complete c here is k text rest (stop m) = matchstar-here c here text (k text rest m)
matchstar-Complete c here is k text rest (more {t = t} {text = text'} f m) =
    matchstar-more c t here text' f (matchstar-Complete c here is k text' rest m)

end-Sound : Sound is_empty (at_end ∷ [])
unfolding is_empty
end-Sound [] h = ([], finish)
end-Sound (t ∷ text) h = cc

end-Complete : Complete is_empty (at_end ∷ [])
unfolding is_empty
end-Complete text rest finish = refl

all_Sound : Sound (λ text. true) []
all_Sound text h = (text, done)

all_Complete : Complete (λ text. true) []
all_Complete text rest m = refl

matchhere-Sound : (re : List ℕ) → Sound (matchhere re) (parse re)
unfolding matchhere parse is_empty
matchhere-Sound [] text h = (text, done)
matchhere-Sound (c ∷ []) text h = elim (Bool-cases (c == b'$')) [
  | inl e ↦ rw e (end-Sound text (rw e at h))
  | inr e ↦ rw e (step_char-Sound c (λ rest. true) [] all_Sound text (rw e at h))
]
matchhere-Sound (c ∷ d ∷ re) text h = elim (Bool-cases (d == b'*')) [
  | inl e ↦ rw e (matchstar-Sound c (matchhere re) (parse re) (matchhere-Sound re) text (rw e at h))
  | inr e ↦ rw e (
      step_char-Sound c (matchhere (d ∷ re)) (parse (d ∷ re)) (matchhere-Sound (d ∷ re)) text
        (rw e at h))
]

matchhere-Complete : (re : List ℕ) → Complete (matchhere re) (parse re)
unfolding matchhere parse is_empty
matchhere-Complete [] text rest m = refl
matchhere-Complete (c ∷ []) text rest m = elim (Bool-cases (c == b'$')) [
  | inl e ↦ rw e (end-Complete text rest (rw e at m))
  | inr e ↦ rw e (step_char-Complete c (λ rest. true) [] all_Complete text rest (rw e at m))
]
matchhere-Complete (c ∷ d ∷ re) text rest m = elim (Bool-cases (d == b'*')) [
  | inl e ↦
      rw e (
        matchstar-Complete c (matchhere re) (parse re) (matchhere-Complete re) text rest
          (rw e at m))
  | inr e ↦ rw e (
      step_char-Complete c (matchhere (d ∷ re)) (parse (d ∷ re)) (matchhere-Complete (d ∷ re)) text
        rest (rw e at m))
]

-- `matchhere` answers 1 exactly when the items of the pattern consume some prefix of the text.
pub matchhere-decides : (re text : List ℕ) → (matchhere re text ≡ true) ↔ Starts (parse re) text
matchhere-decides re text = (matchhere-Sound re text, λ s. matchhere-Complete re text s.0 s.1)

-- The items start at some suffix of the text.
abbrev pub Anywhere : List ℕ → List ℕ → Type 0
Anywhere re text =
    (before : List ℕ) × (after : List ℕ) × (text ≡ before ++ after) × Starts (parse re) after

-- A leading `^` fixes the start.
abbrev pub Found : List ℕ → List ℕ → Type 0
Found [] text = Anywhere [] text
Found (c ∷ re) text = if c == b'^' then Starts (parse re) text else Anywhere (c ∷ re) text

match_from-Sound : (re text : List ℕ) → match_from re text ≡ true → Anywhere re text
unfolding match_from
match_from-Sound re [] h = ([], [], refl, matchhere-Sound re [] h)
match_from-Sound re (t ∷ text) h = elim (Bool-cases (matchhere re (t ∷ text))) [
  | inl e ↦ ([], t ∷ text, refl, matchhere-Sound re (t ∷ text) e)
  | inr e ↦
      let (before, after, p, s) = match_from-Sound re text (rw e at h) in
      (t ∷ before, after, ap (◌∷◌ t) p, s)
]

match_from-Complete :
    (re before after : List ℕ) → Starts (parse re) after → match_from re (before ++ after) ≡ true
unfolding match_from
match_from-Complete re [] [] (rest, m) = matchhere-Complete re [] rest m
match_from-Complete re [] (t ∷ after) (rest, m) = rw (matchhere-Complete re (t ∷ after) rest m)
match_from-Complete re (t ∷ before) after s =
    rw (match_from-Complete re before after s) (ground arith)

match_from-decides : (re text : List ℕ) → (match_from re text ≡ true) ↔ Anywhere re text
match_from-decides re text = (
  match_from-Sound re text,
  λ (before, after, p, s). rw p (match_from-Complete re before after s),
)

-- `match` answers 1 exactly when the pattern is found: at the start of the text after a leading
-- `^`, and at some suffix of it otherwise.
pub match-decides : (re text : List ℕ) → (match re text ≡ true) ↔ Found re text
unfolding match
match-decides [] text = match_from-decides [] text
match-decides (c ∷ re) text = elim (Bool-cases (c == b'^')) [
  | inl e ↦ rw e (matchhere-decides re text)
  | inr e ↦ rw e (match_from-decides (c ∷ re) text)
]
