-- ===== src/File/Refs.antt =====
-- Reference counts of open files in file.c.
use col.Base.{
  sym, subst, ◌-◌, Bool, Bool-cases, List, [], ap, arith, get_or, get_or-set_self, inl, inr, length,
  ltb, none, not, refl, set, some, suc, true, zero, ℕ, ◌&&◌, ◌+◌, ◌<◌, ◌==◌, ◌↔◌, ◌∙◌, ◌∷◌, ◌≡◌,
}
use col.File.{File, no_file, filealloc, filedup, fileclose, still_open}

set-set {ℓ} : {A : Type ℓ} (xs : List A) (i : ℕ) (x y : A) → set (set xs i x) i y ≡ set xs i y
set-set [] i x y = refl
set-set (z ∷ xs) zero x y = refl
set-set (z ∷ xs) (suc i) x y = ap (λ ys. z ∷ ys) (set-set xs i x y)

set-get_or {ℓ} : {A : Type ℓ} (xs : List A) (i : ℕ) (d : A) → set xs i (get_or xs i d) ≡ xs
set-get_or [] i d = refl
set-get_or (z ∷ xs) zero d = refl
set-get_or (z ∷ xs) (suc i) d = ap (λ ys. z ∷ ys) (set-get_or xs i d)

close_shared :
    (i : ℕ) (gs : List File)
    → let f = get_or gs i no_file in
      1 < f.ref → fileclose i gs ≡ some (set gs i (record f { ref = f.ref - 1 }), still_open)
unfolding fileclose
close_shared i gs lt = ground arith

-- Closing a file that was just duplicated gives nothing up and leaves the table as it was before.
pub filedup-fileclose :
    (i : ℕ) (fs gs : List File)
    → i < length fs
    → filedup i fs ≡ some gs
    → fileclose i gs ≡ some (fs, still_open)
unfolding filedup
filedup-fileclose i fs gs lt e = elim (Bool-cases (ltb (get_or fs i no_file).ref 1)) [
  | inl bad ↦ absurd (ground arith)
  | inr good ↦
      let f : File = get_or fs i no_file in
      let g : File = record f { ref = f.ref + 1 } in
      let q : gs ≡ set fs i g = ground arith in
      let at : get_or gs i no_file ≡ g =
        ap (λ hs. get_or hs i no_file) q ∙ get_or-set_self fs i g no_file lt in
      let more : 1 < (get_or gs i no_file).ref =
        subst (λ (h : File). 1 < h.ref) (sym at) (ground arith) in
      close_shared i gs more
      ∙ ap (λ (h : File). some (set gs i (record h { ref = h.ref - 1 }), still_open)) at
      ∙ ap (λ m. some (set gs i (record f { ref = m }), still_open)) (omega arith)
      ∙ ap (λ hs. some (set hs i f, still_open)) q
      ∙ ap (λ hs. some (hs, still_open)) (set-set fs i g f ∙ set-get_or fs i no_file)
]

abbrev pub all_used : List File → Bool
all_used [] = true
all_used (f ∷ fs) = not (f.ref == 0) && all_used fs

-- `filealloc` fails exactly when every file of the table has references.
pub filealloc-none : (fs : List File) (i : ℕ) → ((filealloc fs i).1 ≡ none) ↔ (all_used fs ≡ true)
unfolding filealloc
filealloc-none [] i = ((λ h. refl), λ h. refl)
filealloc-none (f ∷ fs) i =
    let (to, from) = filealloc-none fs (i + 1) in
    elim (Bool-cases (f.ref == 0)) [
      | inl free ↦ ((λ h. absurd (ground arith)), λ h. absurd (ground arith))
      | inr used ↦ ((λ h. ground (arith, to)), λ h. ground (arith, from))
    ]
