-- ===== src/Proc/Life/Exit.antt =====
-- The children of a process that calls `exit` of proc.c.
use col.Base.{
  get_or-set_cases, [], zero, count_up, get_or-set_ne, ltb→lt, get_or-set_self, ltb, ap, length-set,
  some, ◌∙◌, ◌∷◌, ◌≤◌, ==_iff, Bool-cases, List, arith, count_up-keeps, get_or, inl, inr, length,
  refl, set, subst, suc, sym, ℕ, ◌<◌, ◌==◌, ◌≡◌, ◌≢◌, ◌⊎◌,
}
use col.Proc.{zombie, is_state, ptr, Proc, Kernel}
use col.Proc.Table.{slot, blank}
use col.Proc.Wake.{wakeup1}
use col.Proc.Life.{closed, pass_on, reparent, exit_table, exit, Metrics}
use col.Proc.Life.Pids.{wakeup1-slot}

-- One round passes nothing but the parent of slot `i` on.
pub pass_on_cases :
    (cur initproc i : ℕ) (ps : List Proc)
    → let p = get_or ps i blank in
      let moved = set ps i (record p { parent = ptr initproc }) in
      ((p.parent ≡ ptr cur)
        × ((pass_on cur initproc i ps ≡ wakeup1 (ptr initproc) moved)
            ⊎ (pass_on cur initproc i ps ≡ moved)))
      ⊎ ((p.parent ≢ ptr cur) × (pass_on cur initproc i ps ≡ ps))
unfolding pass_on
pass_on_cases cur initproc i ps = elim (Bool-cases ((get_or ps i blank).parent == ptr cur)) [
  | inr e ↦ inr (ground arith, rw e)
  | inl e ↦ inl (
    (==_iff _ _).0 e,
    elim (Bool-cases (is_state (get_or ps i blank).state zombie)) [
      | inl z ↦ inl (rw (e, z))
      | inr z ↦ inr (rw (e, z))
    ],
  )
]

parent-wakeup1 :
    (chan : ℕ) (ps : List Proc) (i : ℕ)
    → (get_or (wakeup1 chan ps) i blank).parent ≡ (get_or ps i blank).parent
parent-wakeup1 chan ps i = rw wakeup1-slot (ground arith)

-- Below `i` no slot has `cur` for its parent.
abbrev NoChild : ℕ → ℕ → List Proc → Type 0
NoChild cur i ps = (j : ℕ) → j < i → (get_or ps j blank).parent ≢ ptr cur

length-wakeup1 : (chan : ℕ) (ps : List Proc) → length (wakeup1 chan ps) ≡ length ps
unfolding wakeup1
length-wakeup1 chan [] = refl
length-wakeup1 chan (p ∷ ps) = ap suc (length-wakeup1 chan ps)

abbrev pub moved : ℕ → ℕ → List Proc → List Proc
moved initproc i ps = set ps i (record (get_or ps i blank) { parent = ptr initproc })

moved-NoChild :
    (cur initproc i : ℕ) (ps : List Proc)
    → initproc ≢ cur
    → i < length ps
    → NoChild cur i ps
    → NoChild cur (suc i) (moved initproc i ps)
moved-NoChild cur initproc i ps ne lt f j hj e = elim (Bool-cases (j == i)) [
  | inl same ↦
      let ji = (==_iff j i).0 same in
      let at_i = subst (λ x. (get_or (moved initproc i ps) x blank).parent ≡ ptr cur) ji e in
      ne (
        omega (
          arith,
          at_i,
          ap (λ p. p.parent)
              (get_or-set_self ps i (record (get_or ps i blank) { parent = ptr initproc }) blank
                lt),
        ))
  | inr other ↦
      f j (ground arith)
        (sym (ap (λ p. p.parent) (get_or-set_ne ps i j _ blank (λ q. ground arith))) ∙ e)
]

length-pass_on :
    (cur initproc i : ℕ) (ps : List Proc) → length (pass_on cur initproc i ps) ≡ length ps
length-pass_on cur initproc i ps =
    let long = length-set ps i (record (get_or ps i blank) { parent = ptr initproc }) in
    elim (pass_on_cases cur initproc i ps) [
      | inr (_, e) ↦ ap length e
      | inl (_, inr e) ↦ ap length e ∙ long
      | inl (_, inl e) ↦ ap length e ∙ length-wakeup1 (ptr initproc) (moved initproc i ps) ∙ long
    ]

pass_on-NoChild :
    (cur initproc i : ℕ) (ps : List Proc)
    → initproc ≢ cur
    → i < length ps
    → NoChild cur i ps
    → NoChild cur (suc i) (pass_on cur initproc i ps)
pass_on-NoChild cur initproc i ps ne lt f = elim (pass_on_cases cur initproc i ps) [
  | inr (other, e) ↦ subst (NoChild cur (suc i)) (sym e) (λ j hj q. elim (Bool-cases (j == i)) [
    | inl same ↦ other (subst (λ x. (get_or ps x blank).parent ≡ ptr cur) ((==_iff j i).0 same) q)
    | inr apart ↦ f j (ground arith) q
  ])
  | inl (_, inr e) ↦ subst (NoChild cur (suc i)) (sym e) (moved-NoChild cur initproc i ps ne lt f)
  | inl (_, inl e) ↦ subst (NoChild cur (suc i)) (sym e) (λ j hj q.
      moved-NoChild cur initproc i ps ne lt f j hj
        (sym (parent-wakeup1 (ptr initproc) (moved initproc i ps) j) ∙ q))
]

-- Out of range a slot is blank.
get_or_beyond : (ps : List Proc) (j : ℕ) → length ps ≤ j → get_or ps j blank ≡ blank
get_or_beyond [] j h = refl
get_or_beyond (p ∷ ps) zero h = absurd (omega arith)
get_or_beyond (p ∷ ps) (suc j) h = get_or_beyond ps j (omega arith)

reparent-NoChild :
    (cur initproc : ℕ) (ps : List Proc)
    → initproc ≢ cur
    → (j : ℕ) → (get_or (reparent cur initproc ps) j blank).parent ≢ ptr cur
unfolding reparent
reparent-NoChild cur initproc ps ne j e =
    let (long, none_left) =
      count_up-keeps (λ i qs. (length qs ≡ length ps) × NoChild cur i qs) (pass_on cur initproc)
        (length ps) 0 (length ps) ps (omega arith)
        (λ i qs lt h. (
          length-pass_on cur initproc i qs ∙ h.0,
          pass_on-NoChild cur initproc i qs ne (omega (arith, h.0)) h.1,
        ))
        (refl, λ j hj. absurd (omega arith)) in
    elim (Bool-cases (ltb j (length ps))) [
      | inl lt ↦ none_left j (ltb→lt j (length ps) lt) e
      | inr ge ↦ omega (
        arith,
        e,
        ap (λ p. p.parent)
            (get_or_beyond (count_up (length ps) 0 (pass_on cur initproc) ps) j (ground arith)),
      )
    ]

-- What a call of `exit` that does not panic leaves.
pub exit_inv :
    (cur : ℕ) (k k' : Kernel) (m : Metrics)
    → exit cur k ≡ some (k', m)
    → (k.initproc ≢ cur) × (k'.ptable ≡ exit_table cur k) × (k'.nextpid ≡ k.nextpid)
unfolding exit
exit_inv cur k k' m e = (ground arith, ground arith, ground arith)

exit_table-NoChild :
    (cur : ℕ) (k : Kernel)
    → k.initproc ≢ cur
    → (j : ℕ) → (get_or (exit_table cur k) j blank).parent ≢ ptr cur
unfolding exit_table
exit_table-NoChild cur k ne j q =
    let told = wakeup1 (slot k cur).parent (set k.ptable cur (closed k.ticks (slot k cur))) in
    let passed = reparent cur k.initproc told in
    reparent-NoChild cur k.initproc told ne j
      (elim (get_or-set_cases passed cur j (record (get_or passed cur blank) { state = zombie })
        blank) [
          | inl (same, e) ↦
              ap (λ x. (get_or passed x blank).parent) (sym same) ∙ sym (ap (λ p. p.parent) e) ∙ q
          | inr e ↦ sym (ap (λ p. p.parent) e) ∙ q
        ])

-- After a call of `exit` that does not panic no slot has the process that is gone for its parent.
pub exit-no_orphans :
    (cur : ℕ) (k k' : Kernel) (m : Metrics)
    → exit cur k ≡ some (k', m)
    → (j : ℕ) → (slot k' j).parent ≢ ptr cur
exit-no_orphans cur k k' m e j =
    let (ne, same, _) = exit_inv cur k k' m e in
    subst (λ ps. (get_or ps j blank).parent ≢ ptr cur) (sym same) (exit_table-NoChild cur k ne j)
