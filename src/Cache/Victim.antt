-- ===== src/Cache/Victim.antt =====
-- The buffer that `bget` of bio.c takes.
use col.Base.{
  Bool, Bool-cases, false, List, Option-cases, [], arith, inl, inr, none, not, refl, some, subst,
  sym, true, ℕ, ◌&&◌, ◌↔◌, ◌∷◌, ◌≡◌, ◌⊎◌, ◌<◌,
}
use col.Cache.{Buf, is_hit, refer, use_cached, can_recycle, renew, recycle, bget}

-- Buffer by buffer: unchanged, with one reference more, or recycled when it was free to be.
abbrev pub Kept : ℕ → ℕ → List Buf → List Buf → Type 0
Kept d n [] [] = Unit {0}
Kept d n [] (c ∷ cs) = ⊥
Kept d n (b ∷ bs) [] = ⊥
Kept d n (b ∷ bs) (c ∷ cs) =
    ((c ≡ b) ⊎ (c ≡ refer b) ⊎ ((b.refcnt ≡ 0) × (b.dirty ≡ false) × (c ≡ renew d n b)))
    × Kept d n bs cs

Kept-refl : (d n : ℕ) (bs : List Buf) → Kept d n bs bs
Kept-refl d n [] = tt
Kept-refl d n (b ∷ bs) = (inl refl, Kept-refl d n bs)

use_cached-Kept :
    (d n : ℕ) (bs bs' : List Buf) (a : ℕ) → use_cached d n bs ≡ some (a, bs') → Kept d n bs bs'
unfolding use_cached
use_cached-Kept d n [] bs' a e = cc
use_cached-Kept d n (b ∷ bs) bs' a e = elim (Bool-cases (is_hit d n b)) [
  | inl h ↦
      let q : bs' ≡ refer b ∷ bs = ground arith in
      subst (Kept d n (b ∷ bs)) (sym q) (inr (inl refl), Kept-refl d n bs)
  | inr h ↦ elim (Option-cases (use_cached d n bs)) [
    | inl f ↦ absurd (ground arith)
    | inr ((x, xs), f) ↦
        let q : bs' ≡ b ∷ xs = ground arith in
        subst (Kept d n (b ∷ bs)) (sym q) (inl refl, use_cached-Kept d n bs xs x f)
  ]
]

-- A buffer that may be recycled has no reference and is not dirty.
can_recycle_lem : (b : Buf) → can_recycle b ≡ true → (b.refcnt ≡ 0) × (b.dirty ≡ false)
can_recycle_lem b h = (ground arith, ground arith)

recycle-Kept :
    (d n : ℕ) (bs bs' : List Buf) (a : ℕ) → recycle d n bs ≡ some (a, bs') → Kept d n bs bs'
unfolding recycle
recycle-Kept d n [] bs' a e = cc
recycle-Kept d n (b ∷ bs) bs' a e = elim (Option-cases (recycle d n bs)) [
  | inr ((x, xs), f) ↦
      let q : bs' ≡ b ∷ xs = ground arith in
      subst (Kept d n (b ∷ bs)) (sym q) (inl refl, recycle-Kept d n bs xs x f)
  | inl f ↦
      let q : (can_recycle b ≡ true) × (bs' ≡ renew d n b ∷ bs) = ground arith in
      let idle = can_recycle_lem b q.0 in
      subst (Kept d n (b ∷ bs)) (sym q.1) (inr (inr (idle.0, idle.1, refl)), Kept-refl d n bs)
]

-- The buffer at address `a` stands for the block, and is referenced.
abbrev pub IsHeld : (a d n : ℕ) → List Buf → Type 0
IsHeld a d n [] = ⊥
IsHeld a d n (c ∷ cs) =
    ((c.at ≡ a) × (c.dev ≡ d) × (c.blockno ≡ n) × (0 < c.refcnt)) ⊎ IsHeld a d n cs

use_cached-IsHeld :
    (d n : ℕ) (bs bs' : List Buf) (a : ℕ) → use_cached d n bs ≡ some (a, bs') → IsHeld a d n bs'
unfolding use_cached
use_cached-IsHeld d n [] bs' a e = cc
use_cached-IsHeld d n (b ∷ bs) bs' a e = elim (Bool-cases (is_hit d n b)) [
  | inl h ↦
      let (qa, q) : (a ≡ b.at) × (bs' ≡ refer b ∷ bs) = ground arith in
      subst (IsHeld a d n) (sym q) (inl (sym qa, ground arith, ground arith, omega arith))
  | inr h ↦ elim (Option-cases (use_cached d n bs)) [
    | inl f ↦ absurd (ground arith)
    | inr ((x, xs), f) ↦
        let (qa, q) : (x ≡ a) × (bs' ≡ b ∷ xs) = ground arith in
        subst (IsHeld a d n) (sym q)
          (inr (subst (λ k. IsHeld k d n xs) qa (use_cached-IsHeld d n bs xs x f)))
  ]
]

recycle-IsHeld :
    (d n : ℕ) (bs bs' : List Buf) (a : ℕ) → recycle d n bs ≡ some (a, bs') → IsHeld a d n bs'
unfolding recycle
recycle-IsHeld d n [] bs' a e = cc
recycle-IsHeld d n (b ∷ bs) bs' a e = elim (Option-cases (recycle d n bs)) [
  | inr ((x, xs), f) ↦
      let (qa, q) : (x ≡ a) × (bs' ≡ b ∷ xs) = ground arith in
      subst (IsHeld a d n) (sym q)
        (inr (subst (λ k. IsHeld k d n xs) qa (recycle-IsHeld d n bs xs x f)))
  | inl f ↦
      let (qa, q) : (a ≡ b.at) × (bs' ≡ renew d n b ∷ bs) = ground arith in
      subst (IsHeld a d n) (sym q) (inl (sym qa, refl, refl, omega arith))
]

-- A get never takes a buffer that is referenced or pinned by the log: each buffer is as it was, has
-- one reference more, or was neither referenced nor dirty and now stands for the block. The buffer whose
-- address it returns stands for the block then, and has a reference.
pub bget-Kept :
    (d n : ℕ) (bs bs' : List Buf) (a : ℕ)
    → bget d n bs ≡ some (a, bs')
    → Kept d n bs bs' × IsHeld a d n bs'
unfolding bget
bget-Kept d n bs bs' a e = elim (Option-cases (use_cached d n bs)) [
  | inl f ↦
      let g : recycle d n bs ≡ some (a, bs') = ground arith in
      (recycle-Kept d n bs bs' a g, recycle-IsHeld d n bs bs' a g)
  | inr ((x, xs), f) ↦
      let g : use_cached d n bs ≡ some (a, bs') = ground arith in
      (use_cached-Kept d n bs bs' a g, use_cached-IsHeld d n bs bs' a g)
]

-- Neither the block's own buffer nor one that is free.
abbrev pub is_other : ℕ → ℕ → Buf → Bool
is_other d n b = not (is_hit d n b) && not (can_recycle b)

abbrev pub all_other : ℕ → ℕ → List Buf → Bool
all_other d n [] = true
all_other d n (b ∷ bs) = is_other d n b && all_other d n bs

loops_idle :
    (d n : ℕ) (bs : List Buf)
    → all_other d n bs ≡ true
    → (use_cached d n bs ≡ none) × (recycle d n bs ≡ none)
unfolding use_cached recycle
loops_idle d n [] h = (refl, refl)
loops_idle d n (b ∷ bs) h =
    let (f, g) = loops_idle d n bs (ground arith) in (ground arith, ground arith)

loops_fail :
    (d n : ℕ) (bs : List Buf)
    → use_cached d n bs ≡ none
    → recycle d n bs ≡ none
    → all_other d n bs ≡ true
unfolding use_cached recycle
loops_fail d n [] e h = refl
loops_fail d n (b ∷ bs) e h = elim (Option-cases (use_cached d n bs)) [
  | inr (r, f) ↦ absurd (ground arith)
  | inl f ↦ elim (Option-cases (recycle d n bs)) [
    | inr (r, g) ↦ absurd (ground arith)
    | inl g ↦ let rest = loops_fail d n bs f g in ground arith
  ]
]

-- A get panics exactly when no buffer stands for the block and every buffer is referenced or dirty.
pub bget-none : (d n : ℕ) (bs : List Buf) → (bget d n bs ≡ none) ↔ (all_other d n bs ≡ true)
unfolding bget
bget-none d n bs = (
  (λ e. elim (Option-cases (use_cached d n bs)) [
    | inl f ↦ loops_fail d n bs f (ground arith)
    | inr (r, f) ↦ absurd (ground arith)
  ]),
  (λ h. let (f, g) = loops_idle d n bs h in ground arith),
)
