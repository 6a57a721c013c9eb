-- ===== src/Proc/Sched/Fair.antt =====
-- How long a process that can run waits for the processor, by the scheduler of proc.c.
use col.Base.{
  total, total_lt, term-total, Option-cases, ap, ap₂, arith, get_or-set_ne, get_or-set_self,
  length-set, if◌then◌else◌, inl, inr, length, not, refl, some, subst, suc, sym, true, zero, ℕ, ◌+◌,
  ◌<◌, ◌==◌, ◌∙◌, ◌≡◌, ◌≢◌, ◌≤◌, ==_iff, Bool-cases,
}
use col.Proc.{runnable, Proc, Kernel}
use col.Proc.Table.{slot, blank}
use col.Proc.Wake.{yield}
use col.Proc.Sched.{Choice, eligible, bump, prepare, choice, schedule, charge, account}
use col.Proc.Sched.Round.{Round, schedule-Round, schedule-idle}
use col.Proc.Sched.Order.{NoBetter}
use col.Proc.Sched.Turn.{Turn, run_burst, turn, nth_turn}
use col.Proc.Sched.Waits.{lead, NoBetter-lead}

-- A turn that the process in slot `i` got.
record Took (k k' : Kernel) (i : ℕ) : Type 0 where
  inside : i < length k.ptable
  could : eligible (slot k i) ≡ true
  can : eligible (slot k' i) ≡ true
  same_priority : (slot k' i).init_priority ≡ (slot k i).init_priority
  same_waiting : (slot k' i).waiting_time ≡ (slot k i).waiting_time
  more_time : (slot k i).rtime ≤ (slot k' i).rtime
  best : (j : ℕ) → j < length k.ptable → eligible (slot k j) ≡ true → 1 ≤ lead (slot k j) (slot k i)
  same_length : length k'.ptable ≡ length k.ptable
  others : (j : ℕ) → j ≢ i → slot k' j ≡ (if eligible (slot k j) then bump (slot k j) else slot k j)

run_burst-Took :
    (burst prev start_run : ℕ) (c : Choice) (k k1 : Kernel)
    → Round k k1 c
    → Took k (run_burst burst prev start_run c k1).kernel c.at
unfolding run_burst account yield
run_burst-Took burst prev start_run c k k1 r =
    let (j, lt, ok, q) = r.source in
    let at : c.at ≡ j = ap (λ x. x.at) q ∙ omega arith in
    let could : eligible (slot k c.at) ≡ true =
      subst (λ m. eligible (slot k m) ≡ true) (sym at) ok in
    let in_table : c.at < length k1.ptable = omega (arith, r.same_length) in
    let y : Proc = record (slot k1 c.at) { state = runnable } in
    let first = get_or-set_self k1.ptable c.at y blank in_table in
    let k2 : Kernel = yield c.at (record k1 { ticks = k1.ticks + burst }) in
    let second =
      get_or-set_self k2.ptable c.at
        (charge start_run k2.ticks (not (prev == c.at + 1)) (slot k2 c.at)) blank
        (omega (arith, length-set k1.ptable c.at y)) in
    let ran : slot k1 c.at ≡ prepare k.ticks (bump (slot k c.at)) = r.ran in
    let mid : slot k2 c.at ≡ record (prepare k.ticks (bump (slot k c.at))) { state = runnable } =
      first ∙ ap (λ (p : Proc). record p { state = runnable }) ran in
    let whole = second ∙ ap (charge start_run k2.ticks (not (prev == c.at + 1))) mid in
    record {
      inside = omega arith;
      could = could;
      can = ap eligible whole ∙ ground arith;
      same_priority = ap (λ (p : Proc). p.init_priority) whole;
      same_waiting = ap (λ (p : Proc). p.waiting_time) whole ∙ omega arith;
      more_time = (let e = ap (λ (p : Proc). p.rtime) whole in omega arith);
      best = λ m l e.
          let h : NoBetter (choice (0 + m) (slot k m)) (choice (0 + j) (slot k j)) =
            subst (NoBetter (choice (0 + m) (slot k m))) q (r.best m l e) in
          subst (λ n. 1 ≤ lead (slot k m) (slot k n)) (sym at)
            (NoBetter-lead (0 + m) (0 + j) (slot k m) (slot k j) h);
      same_length = length-set k2.ptable c.at _ ∙ length-set k1.ptable c.at y ∙ r.same_length;
      others = λ m ne.
          get_or-set_ne k2.ptable c.at m _ blank (λ s. ne (sym s))
          ∙ get_or-set_ne k1.ptable c.at m y blank (λ s. ne (sym s))
          ∙ r.others m ne;
    }

-- The sum of the leads of all that can run.
abbrev pub head_start : Kernel → ℕ → ℕ
head_start k i =
    total (λ j. if eligible (slot k j) then lead (slot k i) (slot k j) else 0) (length k.ptable)

-- What slot `j` adds to it.
abbrev pub share : Proc → Proc → ℕ
share p q = if eligible q then lead p q else 0

share-bump : (p q : Proc) → share (bump p) (if eligible q then bump q else q) ≡ share p q
share-bump p q = elim (Bool-cases (eligible q)) [
  | inl e ↦ rw (e, e) (omega arith)
  | inr e ↦ rw (e, e) refl
]

share_ran :
    (p q q' : Proc)
    → eligible q ≡ true
    → eligible q' ≡ true
    → q'.init_priority ≡ q.init_priority
    → q'.waiting_time ≡ q.waiting_time
    → q.rtime ≤ q'.rtime
    → 1 ≤ lead p q
    → share (bump p) q' < share p q
share_ran p q q' e e' same_prio same_wait more ahead = rw (e, e') (omega arith)

-- A turn that another process took leaves less of it.
less_left :
    (k k' : Kernel) (x i : ℕ)
    → x < length k.ptable
    → eligible (slot k x) ≡ true
    → x ≢ i
    → Took k k' i
    → head_start k' x < head_start k x
less_left k k' x i lt e ne t =
    let mine : slot k' x ≡ bump (slot k x) = t.others x ne ∙ rw e refl in
    let new : ℕ → ℕ = λ j. share (slot k' x) (slot k' j) in
    let old : ℕ → ℕ = λ j. share (slot k x) (slot k j) in
    let at_i : new i < old i =
      subst (λ p. share p (slot k' i) < old i) (sym mine)
        (share_ran (slot k x) (slot k i) (slot k' i) t.could t.can t.same_priority t.same_waiting
          t.more_time (t.best x lt e)) in
    let each : (j : ℕ) → j < length k.ptable → new j ≤ old j = λ j l. elim (Bool-cases (j == i)) [
      | inl s ↦ subst (λ m. new m ≤ old m) (sym ((==_iff j i).0 s)) (omega arith)
      | inr s ↦
          let q : slot k' j ≡ (if eligible (slot k j) then bump (slot k j) else slot k j) =
            t.others j (λ c. cc ((==_iff j i).1 c)) in
          let r : new j ≡ old j =
            ap₂ (λ a b. share a b) mine q ∙ share-bump (slot k x) (slot k j) in
          omega (arith, r)
    ] in
    subst (λ n. total new n < total old (length k.ptable)) (sym t.same_length)
      (total_lt old new (length k.ptable) i each t.inside at_i)

turn_run :
    (burst prev : ℕ) (k : Kernel) (c : Choice)
    → (schedule k).1 ≡ some c
    → turn burst prev k ≡ run_burst burst prev k.ticks c (schedule k).0
unfolding turn
turn_run burst prev k c e = rw (turn, e) refl

at_least_one :
    (k : Kernel) (x : ℕ) → x < length k.ptable → eligible (slot k x) ≡ true → 1 ≤ head_start k x
at_least_one k x lt e =
    let t = term-total (λ j. share (slot k x) (slot k j)) (length k.ptable) x lt in
    let one : share (slot k x) (slot k x) ≡ 1 = rw e (omega arith) in omega arith

run_ran :
    (burst prev start_run : ℕ) (c : Choice) (k : Kernel)
    → (run_burst burst prev start_run c k).ran ≡ some c
unfolding run_burst
run_ran burst prev start_run c k = refl

-- A process that can run gets the processor within a bounded number of turns. The bound is a sum over
-- all processes that can run, it included, of how far each is ahead in priority, plus one, or 0 for
-- those further behind. In each turn the process that was chosen runs for any number of ticks and then
-- yields, and nothing else changes the process table.
pub nth_turn-fair :
    (bound : ℕ) (bursts : ℕ → ℕ) (prev x : ℕ) (k : Kernel)
    → x < length k.ptable
    → eligible (slot k x) ≡ true
    → head_start k x ≤ bound
    → (n : ℕ) × (n < bound) × (c : Choice) × (nth_turn bursts n prev k ≡ some c) × (c.at ≡ x)
unfolding nth_turn
nth_turn-fair zero bursts prev x k lt e le = let one = at_least_one k x lt e in absurd (omega arith)
nth_turn-fair (suc bound) bursts prev x k lt e le = elim (Option-cases (schedule k).1) [
  | inl idle ↦ cc ((schedule-idle k).0 idle x lt)
  | inr (c, found) ↦
      let went = turn_run (bursts 0) prev k c found in
      elim (Bool-cases (c.at == x)) [
        | inl me ↦ (
          0,
          omega arith,
          c,
          ap (λ (t : Turn). t.ran) went ∙ run_ran (bursts 0) prev k.ticks c (schedule k).0,
          (==_iff _ _).0 me,
        )
        | inr other ↦
            let t = turn (bursts 0) prev k in
            let r = schedule-Round k (schedule k).0 c (ap (λ o. ((schedule k).0, o)) found) in
            let took : Took k t.kernel c.at =
              subst (λ (u : Turn). Took k u.kernel c.at) (sym went)
                (run_burst-Took (bursts 0) prev k.ticks c k (schedule k).0 r) in
            let ne : x ≢ c.at = λ q. cc ((==_iff c.at x).1 (sym q)) in
            let can : eligible (slot t.kernel x) ≡ true = ap eligible (took.others x ne) ∙ rw e e in
            let less = less_left k t.kernel x c.at lt e ne took in
            let (n, small, d, got, at) =
              nth_turn-fair bound (λ i. bursts (i + 1)) t.prev x t.kernel
                (omega (arith, took.same_length)) can (omega arith) in
            (suc n, omega arith, d, got, at)
      ]
]
