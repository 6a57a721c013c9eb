-- ===== src/Proc/Keys.antt =====
-- The control keys that xv6-public_2/console.c adds to `consoleintr`: what Ctrl-C, Ctrl-B and Ctrl-F
-- do to the process table.
use col.Base.{
  ap, arith, inl, inr, length, length-set, get_or-set_ne, some-injective, refl, sym, suc, zero,
  Bool-cases, Option-cases, ◌-◌, ◌≤◌, ◌∙◌, ◌≢◌, List, Option, [], false, get_or, if◌then◌else◌, leb,
  ltb, map, none, not, set, some, true, ℕ, ◌&&◌, ◌+◌, ◌<◌, ◌==◌, ◌∷◌, ◌≡◌,
}
use col.Proc.{sleeping, runnable, zombie, is_state, Proc}
use col.Proc.Table.{blank}
use col.Proc.Wake.{wakeup1, wake_one}

-- Ctrl-C marks every process but the first two.
abbrev pub interrupt_one : Proc → Proc
interrupt_one p = if leb 3 p.pid then record p { killed = true } else p

unfoldable pub ctrl_c : List Proc → List Proc
ctrl_c ps = map interrupt_one ps

-- Ctrl-B puts every process but the first two in the background, unless it is a zombie.
abbrev pub background_one : Proc → Proc
background_one p = if ltb 2 p.pid && not (is_state p.state zombie) then record p { b = true } else p

-- The slot of the shell, by its pid 2, from slot `i` on.
unfoldable pub find_shell : List Proc → ℕ → Option ℕ
find_shell [] i = none
find_shell (p ∷ ps) i = let rest = find_shell ps (i + 1) in if p.pid == 2 then some i else rest

unfoldable pub ctrl_b : List Proc → List Proc
ctrl_b ps =
    let back = map background_one ps in
    elim (find_shell back 0) [
      | none ↦ back
      | some i ↦
          wakeup1 (get_or back i blank).chan
            (set back i (record (get_or back i blank) { state = runnable }))
    ]

-- Ctrl-F makes every background process runnable, and the shell sleep.
abbrev pub foreground_one : Proc → Proc
foreground_one p =
    if ltb 2 p.pid && p.b
    then record p { b = false; state = runnable }
    else if p.pid == 2
    then record p { state = sleeping }
    else p

unfoldable pub ctrl_f : List Proc → List Proc
ctrl_f ps = map foreground_one ps

-- What Ctrl-B and then Ctrl-F make of a process with another pid than the first two have.
abbrev pub started : Proc → Proc
started p =
    if is_state p.state zombie && not p.b then p else record p { b = false; state = runnable }

get_or-ctrl_f :
    (ps : List Proc) (i : ℕ)
    → i < length ps
    → get_or (ctrl_f ps) i blank ≡ foreground_one (get_or ps i blank)
unfolding ctrl_f
get_or-ctrl_f [] i lt = absurd (omega arith)
get_or-ctrl_f (p ∷ ps) zero lt = refl
get_or-ctrl_f (p ∷ ps) (suc i) lt = get_or-ctrl_f ps i (omega arith)

get_or-background :
    (ps : List Proc) (i : ℕ)
    → i < length ps
    → get_or (map background_one ps) i blank ≡ background_one (get_or ps i blank)
get_or-background [] i lt = absurd (omega arith)
get_or-background (p ∷ ps) zero lt = refl
get_or-background (p ∷ ps) (suc i) lt = get_or-background ps i (omega arith)

length-background : (ps : List Proc) → length (map background_one ps) ≡ length ps
length-background [] = refl
length-background (p ∷ ps) = ap suc (length-background ps)

get_or-wakeup1 :
    (chan : ℕ) (ps : List Proc) (i : ℕ)
    → i < length ps
    → get_or (wakeup1 chan ps) i blank ≡ wake_one chan (get_or ps i blank)
unfolding wakeup1
get_or-wakeup1 chan [] i lt = absurd (omega arith)
get_or-wakeup1 chan (p ∷ ps) zero lt = refl
get_or-wakeup1 chan (p ∷ ps) (suc i) lt = get_or-wakeup1 chan ps i (omega arith)

length-wakeup1 : (chan : ℕ) (ps : List Proc) → length (wakeup1 chan ps) ≡ length ps
unfolding wakeup1
length-wakeup1 chan [] = refl
length-wakeup1 chan (p ∷ ps) = ap suc (length-wakeup1 chan ps)

find_shell_lem :
    (ps : List Proc) (i j : ℕ)
    → find_shell ps i ≡ some j
    → (i ≤ j) × ((get_or ps (j - i) blank).pid ≡ 2)
unfolding find_shell
find_shell_lem [] i j e = cc
find_shell_lem (p ∷ ps) i j e = elim (Bool-cases (p.pid == 2)) [
  | inl shell ↦
      let q : i ≡ j = some-injective i j (rw shell at e) in
      let z : j - i ≡ 0 = omega arith in (omega arith, rw z (ground arith))
  | inr other ↦
      let (le, is) = find_shell_lem ps (i + 1) j (rw other at e) in
      let z : j - i ≡ suc (j - (i + 1)) = omega arith in (omega arith, rw z is)
]

-- Ctrl-B does nothing more to such a process than to put it in the background and, where the shell
-- sleeps on the same channel, to wake it.
pub data BackOrWoken (p : Proc) : Proc → Type 0 where
  back : BackOrWoken p (background_one p)
  woken : (chan : ℕ) → BackOrWoken p (wake_one chan (background_one p))

get_or-ctrl_b :
    (ps : List Proc) (i : ℕ)
    → i < length ps
    → 2 < (get_or ps i blank).pid
    → BackOrWoken (get_or ps i blank) (get_or (ctrl_b ps) i blank)
      × (length (ctrl_b ps) ≡ length ps)
unfolding ctrl_b
get_or-ctrl_b ps i lt big =
    let bs : List Proc = map background_one ps in
    let p : Proc = get_or ps i blank in
    let at = get_or-background ps i lt in
    let len = length-background ps in
    elim (Option-cases (find_shell bs 0)) [
      | inl absent ↦ rw (ctrl_b, absent) (rw at back, len)
      | inr (j, found) ↦
          let chan : ℕ = (get_or bs j blank).chan in
          let sh : Proc = record (get_or bs j blank) { state = runnable } in
          let (_, is) = find_shell_lem bs 0 j found in
          let same : j - 0 ≡ j = omega arith in
          let shell : (get_or bs j blank).pid ≡ 2 =
            ap (λ k. (get_or bs k blank).pid) (sym same) ∙ is in
          let pid_kept : (background_one p).pid ≡ p.pid = ground arith in
          let ne : j ≢ i = λ q.
            let two : (background_one p).pid ≡ 2 =
              ap (λ (x : Proc). x.pid) (sym at)
              ∙ ap (λ k. (get_or bs k blank).pid) (sym q)
              ∙ shell in
            omega arith in
          let longs : length (set bs j sh) ≡ length ps = length-set bs j sh ∙ len in
          let lt' : i < length (set bs j sh) = omega arith in
          rw (ctrl_b, found)
            (
              rw (get_or-wakeup1 chan (set bs j sh) i lt', get_or-set_ne bs j i sh blank ne, at)
                  (woken chan),
              length-wakeup1 chan (set bs j sh) ∙ longs,
            )
    ]

started_lem : (p q : Proc) → 2 < p.pid → BackOrWoken p q → foreground_one q ≡ started p
started_lem p q big back = ground arith
started_lem p q big (woken chan) = ground arith

-- Ctrl-B and then Ctrl-F, on any process table: a process with a pid above 2, in whatever state it was,
-- is runnable and in the foreground, unless it is a zombie that was not in the background, which is left
-- as it was. Nothing else of it changes. So a process that sleeps is made runnable without its event,
-- one that waits for `sys_scheduler_start` without that call, and a zombie of the background is revived.
pub ctrl_b_f_starts :
    (ps : List Proc) (i : ℕ)
    → i < length ps
    → 2 < (get_or ps i blank).pid
    → get_or (ctrl_f (ctrl_b ps)) i blank ≡ started (get_or ps i blank)
ctrl_b_f_starts ps i lt big =
    let (step, len) = get_or-ctrl_b ps i lt big in
    get_or-ctrl_f (ctrl_b ps) i (omega arith)
    ∙ started_lem (get_or ps i blank) (get_or (ctrl_b ps) i blank) big step
