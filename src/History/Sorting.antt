-- ===== src/History/Sorting.antt =====
-- The order of the records after `gethistory_actual` of xv6-public_1/exec.c.
use col.Base.{
  if◌then◌else◌, Bool, ◌+◌, ◌-◌, ◌∙◌, none, some, Bool-cases, List, [], arith, get_or, inl, inr,
  leb, length, ltb, refl, subst, suc, sym, zero, ℕ, ◌<◌, ◌==◌, ◌∷◌, ◌≡◌, ◌≤◌,
}
use col.History.{gethistory_actual, Entry, bubble, sort_hist}

abbrev no_entry : Entry
no_entry = record { pid = 0; name = []; total_memory = 0 }

abbrev pub pid_at : List Entry → ℕ → ℕ
pid_at hist i = (get_or hist i no_entry).pid

length-bubble : (m : ℕ) (hist : List Entry) → length (bubble m hist) ≡ length hist
unfolding bubble
length-bubble zero hist = refl
length-bubble (suc m) [] = refl
length-bubble (suc m) (x ∷ []) = refl
length-bubble (suc m) (x ∷ y ∷ hist) =
    ground (arith, length-bubble m (x ∷ hist), length-bubble m (y ∷ hist))

bubble_first :
    (m : ℕ) (hist : List Entry) → m < length hist → pid_at hist 0 ≤ pid_at (bubble m hist) m
unfolding bubble
bubble_first zero hist lt = omega arith
bubble_first (suc m) [] lt = omega arith
bubble_first (suc m) (x ∷ []) lt = omega arith
bubble_first (suc m) (x ∷ y ∷ hist) lt = elim (Bool-cases (ltb y.pid x.pid)) [
  | inl h ↦ rw h (bubble_first m (x ∷ hist) (omega arith))
  | inr h ↦ rw h (ground (arith, bubble_first m (y ∷ hist)))
]

bubble_top :
    (m : ℕ) (hist : List Entry) (i : ℕ)
    → m < length hist
    → i ≤ m
    → pid_at (bubble m hist) i ≤ pid_at (bubble m hist) m
unfolding bubble
bubble_top zero hist i lt le = let same : i ≡ 0 = omega arith in rw same (omega arith)
bubble_top (suc m) [] i lt le = omega arith
bubble_top (suc m) (x ∷ []) i lt le = omega arith
bubble_top (suc m) (x ∷ y ∷ hist) zero lt le = elim (Bool-cases (ltb y.pid x.pid)) [
  | inl h ↦ rw h (ground (arith, bubble_first m (x ∷ hist)))
  | inr h ↦ rw h (ground (arith, bubble_first m (y ∷ hist)))
]
bubble_top (suc m) (x ∷ y ∷ hist) (suc i) lt le = elim (Bool-cases (ltb y.pid x.pid)) [
  | inl h ↦ rw h (bubble_top m (x ∷ hist) i (omega arith) (omega arith))
  | inr h ↦ rw h (bubble_top m (y ∷ hist) i (omega arith) (omega arith))
]

bubble_beyond :
    (m : ℕ) (hist : List Entry) (j : ℕ) → m < j → pid_at (bubble m hist) j ≡ pid_at hist j
unfolding bubble
bubble_beyond zero hist j lt = refl
bubble_beyond (suc m) [] j lt = refl
bubble_beyond (suc m) (x ∷ []) j lt = refl
bubble_beyond (suc m) (x ∷ y ∷ hist) zero lt = absurd (omega arith)
bubble_beyond (suc m) (x ∷ y ∷ hist) (suc zero) lt = absurd (omega arith)
bubble_beyond (suc m) (x ∷ y ∷ hist) (suc (suc j)) lt = elim (Bool-cases (ltb y.pid x.pid)) [
  | inl h ↦ rw h (bubble_beyond m (x ∷ hist) (suc j) (omega arith))
  | inr h ↦ rw h (bubble_beyond m (y ∷ hist) (suc j) (omega arith))
]

-- No pid up to index `m` is above `b`.
abbrev Below : ℕ → ℕ → List Entry → Type 0
Below b m hist = (i : ℕ) → i ≤ m → pid_at hist i ≤ b

Below-drop :
    (b m : ℕ) (x y z : Entry) (hist : List Entry)
    → Below b (suc m) (x ∷ y ∷ hist)
    → z.pid ≤ b
    → Below b m (z ∷ hist)
Below-drop b m x y z hist f le zero l = le
Below-drop b m x y z hist f le (suc i) l = f (suc (suc i)) (omega arith)

Below-cons :
    (b m : ℕ) (z : Entry) (hist : List Entry)
    → z.pid ≤ b
    → Below b m hist
    → Below b (suc m) (z ∷ hist)
Below-cons b m z hist le f zero l = le
Below-cons b m z hist le f (suc i) l = f i (omega arith)

bubble-Below : (m : ℕ) (hist : List Entry) (b : ℕ) → Below b m hist → Below b m (bubble m hist)
unfolding bubble
bubble-Below zero hist b f = f
bubble-Below (suc m) [] b f = f
bubble-Below (suc m) (x ∷ []) b f = f
bubble-Below (suc m) (x ∷ y ∷ hist) b f =
    let lx = f 0 (omega arith) in
    let ly = f 1 (omega arith) in
    elim (Bool-cases (ltb y.pid x.pid)) [
      | inl h ↦ rw h (
          Below-cons b m y (bubble m (x ∷ hist)) ly
            (bubble-Below m (x ∷ hist) b (Below-drop b m x y x hist f lx)))
      | inr h ↦ rw h (
          Below-cons b m x (bubble m (y ∷ hist)) lx
            (bubble-Below m (y ∷ hist) b (Below-drop b m x y y hist f ly)))
    ]

-- From index `k` on the records are in their final places.
abbrev pub SortedFrom : ℕ → List Entry → Type 0
SortedFrom k hist = (i j : ℕ) → i < j → k ≤ j → j < length hist → pid_at hist i ≤ pid_at hist j

bubble-SortedFrom :
    (m : ℕ) (hist : List Entry)
    → m < length hist
    → SortedFrom (suc m) hist
    → SortedFrom m (bubble m hist)
bubble-SortedFrom m hist lt s i j ij mj jl =
    let long = length-bubble m hist in
    elim (Bool-cases (j == m)) [
      | inl e ↦
          let same : j ≡ m = ground arith in
          subst (λ x. pid_at (bubble m hist) i ≤ pid_at (bubble m hist) x) (sym same)
            (bubble_top m hist i lt (omega arith))
      | inr e ↦
          let far : m < j = ground arith in
          let at_j = bubble_beyond m hist j far in
          elim (Bool-cases (leb i m)) [
            | inl le ↦
                let b =
                  bubble-Below m hist (pid_at hist j)
                    (λ x l. s x j (omega arith) (omega arith) (omega arith)) i (ground arith) in
                omega (arith, b, at_j)
            | inr gt ↦
                let at_i = bubble_beyond m hist i (ground arith) in
                let b = s i j ij (omega arith) (omega arith) in omega (arith, b, at_i, at_j)
          ]
    ]

sort_hist-SortedFrom :
    (m : ℕ) (hist : List Entry)
    → m < length hist
    → SortedFrom (suc m) hist
    → SortedFrom 1 (sort_hist m hist)
unfolding sort_hist
sort_hist-SortedFrom zero hist lt s = s
sort_hist-SortedFrom (suc m) hist lt s =
    let long = length-bubble (suc m) hist in
    sort_hist-SortedFrom m (bubble (suc m) hist) (omega arith) (bubble-SortedFrom (suc m) hist lt s)

-- The sum of a weight over all records. Weights of 1 and 0 count them.
pub total : (Entry → ℕ) → List Entry → ℕ
total f [] = 0
total f (e ∷ hist) = f e + total f hist

total-bubble : (f : Entry → ℕ) (m : ℕ) (hist : List Entry) → total f (bubble m hist) ≡ total f hist
unfolding bubble total
total-bubble f zero hist = refl
total-bubble f (suc m) [] = refl
total-bubble f (suc m) (x ∷ []) = refl
total-bubble f (suc m) (x ∷ y ∷ hist) = elim (Bool-cases (ltb y.pid x.pid)) [
  | inl h ↦ rw h (omega (arith, total-bubble f m (x ∷ hist)))
  | inr h ↦ rw h (omega (arith, total-bubble f m (y ∷ hist)))
]

total-sort_hist :
    (f : Entry → ℕ) (m : ℕ) (hist : List Entry) → total f (sort_hist m hist) ≡ total f hist
unfolding sort_hist
total-sort_hist f zero hist = refl
total-sort_hist f (suc m) hist =
    total-sort_hist f m (bubble (suc m) hist) ∙ total-bubble f (suc m) hist

sorted_whole : (hist : List Entry) → SortedFrom 1 (sort_hist (length hist - 1) hist)
unfolding sort_hist
sorted_whole [] = λ i j ij kj lt. absurd (omega arith)
sorted_whole (e ∷ hist) =
    sort_hist-SortedFrom (length (e ∷ hist) - 1) (e ∷ hist) (omega arith)
      (λ i j ij kj lt. absurd (omega arith))

-- `gethistory_actual` leaves the records in the order of their pids, the same records as often as
-- before: every weight of a record has the same sum over them. The answer is their number where the
-- copy to the caller succeeds.
pub gethistory_actual-SortedFrom :
    (copied : Bool) (hist : List Entry) (weight : Entry → ℕ)
    → let (after, answer) = gethistory_actual copied hist in
      SortedFrom 1 after
      × (total weight after ≡ total weight hist)
      × (answer ≡ (if copied then some (length hist) else none))
unfolding gethistory_actual
gethistory_actual-SortedFrom copied hist weight =
    (sorted_whole hist, total-sort_hist weight (length hist - 1) hist, refl)
