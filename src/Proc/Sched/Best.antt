-- ===== src/Proc/Sched/Best.antt =====
-- The scan of `scheduler` in proc.c, compared with the order of Proc/Sched/Order.antt.
use col.Base.{
  ◌∙◌, false, Bool-cases, List, Option, [], ap, arith, get_or, if◌then◌else◌, inl, inr, length,
  none, refl, some, subst, suc, sym, true, zero, ℕ, ◌+◌, ◌<◌, ◌∷◌, ◌≡◌, ◌⊎◌,
}
use col.Proc.{Proc}
use col.Proc.Table.{blank}
use col.Proc.Sched.{Choice, eligible, choice, better, consider, pick}
use col.Proc.Sched.Order.{NoBetter, NoBetter-refl, NoBetter-trans, better_lem}

-- There is a choice, and `c` is no better.
abbrev pub Covers : Option Choice → Choice → Type 0
Covers none c = ⊥
Covers (some best) c = NoBetter c best

consider_lem :
    (best : Option Choice) (c : Choice)
    → ((some (consider best c) ≡ best) ⊎ (consider best c ≡ c))
      × NoBetter c (consider best c)
      × ((d : Choice) → Covers best d → NoBetter d (consider best c))
unfolding consider
consider_lem none c = (inr refl, NoBetter-refl c, λ d h. absurd h)
consider_lem (some best) c =
    let (which, a, b) = better_lem best c in
    (
      elim which [ inl e ↦ inl (ap some e) | inr e ↦ inr e ],
      b,
      λ d h. NoBetter-trans d best (better best c) h a,
    )

-- What was covered stays covered.
pick_keeps :
    (ps : List Proc) (i : ℕ) (best : Option Choice) (d : Choice)
    → Covers best d
    → Covers (pick ps i best).1 d
unfolding pick
pick_keeps [] i best d h = h
pick_keeps (p ∷ ps) i best d h = elim (Bool-cases (eligible p)) [
  | inl e ↦ rw e (
      pick_keeps ps (i + 1) (some (consider best (choice i p))) d
        ((consider_lem best (choice i p)).2 d h))
  | inr e ↦ rw e (pick_keeps ps (i + 1) best d h)
]

pick-Covers :
    (ps : List Proc) (i j : ℕ) (best : Option Choice)
    → j < length ps
    → eligible (get_or ps j blank) ≡ true
    → Covers (pick ps i best).1 (choice (i + j) (get_or ps j blank))
unfolding pick
pick-Covers [] i j best lt e = absurd (omega arith)
pick-Covers (p ∷ ps) i zero best lt e =
    let at : i + 0 ≡ i = omega arith in
    rw e (
      subst (λ m. Covers (pick ps (i + 1) (some (consider best (choice i p)))).1 (choice m p))
        (sym at)
        (pick_keeps ps (i + 1) (some (consider best (choice i p))) (choice i p)
          (consider_lem best (choice i p)).1))
pick-Covers (p ∷ ps) i (suc j) best lt e =
    let at : i + 1 + j ≡ i + suc j = omega arith in
    subst (λ m. Covers (pick (p ∷ ps) i best).1 (choice m (get_or ps j blank))) at
      (pick-Covers ps (i + 1) j (if eligible p then some (consider best (choice i p)) else best)
        (omega arith) e)

-- The choice is an eligible process of the table.
abbrev pub Source : List Proc → ℕ → Choice → Type 0
Source ps i c =
    (j : ℕ) × (j < length ps)
    × (eligible (get_or ps j blank) ≡ true)
    × (c ≡ choice (i + j) (get_or ps j blank))

Source-cons :
    (p : Proc) (ps : List Proc) (i : ℕ) (c : Choice) → Source ps (i + 1) c → Source (p ∷ ps) i c
Source-cons p ps i c (j, lt, e, q) =
    let at : i + 1 + j ≡ i + suc j = omega arith in
    (suc j, omega arith, e, q ∙ ap (λ m. choice m (get_or ps j blank)) at)

Source-head :
    (p : Proc) (ps : List Proc) (i : ℕ) (c : Choice)
    → eligible p ≡ true
    → choice i p ≡ c
    → Source (p ∷ ps) i c
Source-head p ps i c e q =
    let at : i ≡ i + 0 = omega arith in (0, omega arith, e, sym q ∙ ap (λ m. choice m p) at)

pick-Source :
    (ps : List Proc) (i : ℕ) (best : Option Choice) (c : Choice)
    → (pick ps i best).1 ≡ some c
    → (best ≡ some c) ⊎ Source ps i c
unfolding pick
pick-Source [] i best c h = inl h
pick-Source (p ∷ ps) i best c h = elim (Bool-cases (eligible p)) [
  | inr e ↦ elim (pick-Source ps (i + 1) best c (rw e at h)) [
    | inl q ↦ inl q
    | inr s ↦ inr (Source-cons p ps i c s)
  ]
  | inl e ↦ elim (pick-Source ps (i + 1) (some (consider best (choice i p))) c (rw e at h)) [
    | inr s ↦ inr (Source-cons p ps i c s)
    | inl q ↦ elim (consider_lem best (choice i p)).0 [
      | inl old ↦ inl (sym old ∙ q)
      | inr new ↦
          let same : consider best (choice i p) ≡ c = ground arith in
          inr (Source-head p ps i c e (sym new ∙ same))
    ]
  ]
]

-- The scan finds nobody only where nobody is eligible.
pub pick-none :
    (ps : List Proc)
    → (pick ps 0 none).1 ≡ none
    → (j : ℕ) → j < length ps
    → eligible (get_or ps j blank) ≡ false
pick-none ps e j lt = elim (Bool-cases (eligible (get_or ps j blank))) [
  | inr no_one ↦ no_one
  | inl found ↦ absurd (
      subst (λ r. Covers r (choice (0 + j) (get_or ps j blank))) e
        (pick-Covers ps 0 j none lt found))
]

-- The scan chooses a runnable foreground process such that no other one has a higher dynamic
-- priority, nor the same with a lower pid.
pub pick-best :
    (ps : List Proc) (c : Choice)
    → (pick ps 0 none).1 ≡ some c
    → Source ps 0 c
      × ((j : ℕ)
          → j < length ps
          → eligible (get_or ps j blank) ≡ true
          → NoBetter (choice (0 + j) (get_or ps j blank)) c)
pick-best ps c e = (
  elim (pick-Source ps 0 none c e) [ inl q ↦ cc | inr s ↦ s ],
  λ j lt f.
      subst (λ r. Covers r (choice (0 + j) (get_or ps j blank))) e (pick-Covers ps 0 j none lt f),
)
