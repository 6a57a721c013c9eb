-- ===== src/Proc/Sched/Round.antt =====
-- One round of the scheduler: who runs, and what it changes in the table.
use col.Base.{
  ◌||◌, leb, List, Option, Option-cases, [], ap, arith, false, get_or, get_or-set_ne,
  get_or-set_self, if◌then◌else◌, inl, inr, length, length-set, none, not, pos, refl, some, subst,
  suc, sym, true, zero, ℕ, ◌+◌, ◌-◌, ◌<◌, ◌==◌, ◌↔◌, ◌∙◌, ◌∷◌, ◌≡◌, ◌≢◌, ◌≤◌,
}
use col.Proc.{running, Proc, Kernel}
use col.Proc.Table.{slot, blank}
use col.Proc.Sched.{
  consider, Choice, eligible, bump, choice, pick, prepare, dispatch, schedule, charge, account,
}
use col.Proc.Sched.Best.{Source, pick-none, pick-best}
use col.Proc.Sched.Order.{NoBetter}

-- The scan counts a waiting round for each eligible process and changes nothing else.
pick-slot :
    (ps : List Proc) (i j : ℕ) (best : Option Choice)
    → let p = get_or ps j blank in
      get_or (pick ps i best).0 j blank ≡ (if eligible p then bump p else p)
unfolding pick
pick-slot [] i j best = refl
pick-slot (p ∷ ps) i zero best = refl
pick-slot (p ∷ ps) i (suc j) best =
    pick-slot ps (i + 1) j (if eligible p then some (consider best (choice i p)) else best)

length-pick :
    (ps : List Proc) (i : ℕ) (best : Option Choice) → length (pick ps i best).0 ≡ length ps
unfolding pick
length-pick [] i best = refl
length-pick (p ∷ ps) i best =
    ap suc (length-pick ps (i + 1) (if eligible p then some (consider best (choice i p)) else best))

schedule_found :
    (k : Kernel) (c : Choice)
    → (pick k.ptable 0 none).1 ≡ some c
    → schedule k ≡ (dispatch c (record k { ptable = (pick k.ptable 0 none).0 }), some c)
unfolding schedule
schedule_found k c e = rw (e, schedule)

schedule_idle :
    (k : Kernel)
    → (pick k.ptable 0 none).1 ≡ none
    → schedule k ≡ (record k { ptable = (pick k.ptable 0 none).0 }, none)
unfolding schedule
schedule_idle k e = rw (e, schedule)

-- A round in which `c` is chosen.
pub record Round (k k' : Kernel) (c : Choice) : Type 0 where
  pub source : Source k.ptable 0 c
  pub best :
      (j : ℕ)
      → j < length k.ptable
      → eligible (slot k j) ≡ true
      → NoBetter (choice (0 + j) (slot k j)) c
  pub runs : (slot k' c.at).state ≡ running
  pub waited : (slot k' c.at).waiting_time ≡ (slot k c.at).waiting_time
  pub ran : slot k' c.at ≡ prepare k.ticks (bump (slot k c.at))
  pub same_length : length k'.ptable ≡ length k.ptable
  pub same_ticks : k'.ticks ≡ k.ticks
  pub others :
      (j : ℕ) → j ≢ c.at → slot k' j ≡ (if eligible (slot k j) then bump (slot k j) else slot k j)

dispatch-Round :
    (k : Kernel) (c : Choice)
    → (pick k.ptable 0 none).1 ≡ some c
    → Round k (dispatch c (record k { ptable = (pick k.ptable 0 none).0 })) c
unfolding dispatch
dispatch-Round k c e =
    let ps : List Proc = (pick k.ptable 0 none).0 in
    let (source, best) = pick-best k.ptable c e in
    let (j, lt, ok, q) = source in
    let at : c.at ≡ j = ap (λ x. x.at) q ∙ omega arith in
    let in_table : c.at < length ps = omega (arith, length-pick k.ptable 0 none) in
    let ran = get_or-set_self ps c.at (prepare k.ticks (get_or ps c.at blank)) blank in_table in
    let chosen : get_or ps c.at blank ≡ bump (slot k c.at) =
      pick-slot k.ptable 0 c.at none
      ∙ subst (λ m. (if eligible (slot k m) then bump (slot k m) else slot k m) ≡ bump (slot k m))
          (sym at) (rw ok) in
    record {
      source = source;
      best = best;
      runs = ap (λ p. p.state) ran;
      waited = ap (λ p. p.waiting_time) ran ∙ ap (λ p. p.waiting_time - 1) chosen ∙ omega arith;
      ran = ran ∙ ap (prepare k.ticks) chosen;
      same_length =
          length-set ps c.at (prepare k.ticks (get_or ps c.at blank)) ∙ length-pick k.ptable 0 none;
      same_ticks = refl;
      others =
          λ m ne. get_or-set_ne ps c.at m _ blank (λ s. ne (sym s)) ∙ pick-slot k.ptable 0 m none;
    }

pub schedule-Round : (k k' : Kernel) (c : Choice) → schedule k ≡ (k', some c) → Round k k' c
schedule-Round k k' c e = elim (Option-cases (pick k.ptable 0 none).1) [
  | inl idle ↦ cc (ap (λ r. r.1) (schedule_idle k idle))
  | inr (d, found) ↦
      let q = sym (schedule_found k d found) ∙ e in
      let dc : d ≡ c = ground (arith, ap (λ r. r.1) q) in
      subst (Round k k') dc (subst (λ u. Round k u d) (ap (λ r. r.0) q) (dispatch-Round k d found))
]

-- The scheduler idles exactly when no process is runnable in the foreground.
pub schedule-idle :
    (k : Kernel)
    → ((schedule k).1 ≡ none) ↔ ((j : ℕ) → j < length k.ptable → eligible (slot k j) ≡ false)
schedule-idle k = elim (Option-cases (pick k.ptable 0 none).1) [
  | inl idle ↦ ((λ h. pick-none k.ptable idle), λ h. ap (λ r. r.1) (schedule_idle k idle))
  | inr (c, found) ↦ (
    (λ h. cc (ap (λ r. r.1) (schedule_found k c found))),
    λ h. let (j, lt, ok, q) = (pick-best k.ptable c found).0 in cc (h j lt),
  )
]

-- After its time on the processor a process with a time limit has run for the ticks that passed,
-- and it is marked killed if it was so before or its running time has reached the limit.
pub account-charges :
    (start_run i prev : ℕ) (k : Kernel) (limit : ℕ)
    → i < length k.ptable
    → (slot k i).exec_time ≡ pos (suc limit)
    → start_run ≤ k.ticks
    → let p = slot (account start_run i prev k).0 i in
      (p.rtime + start_run ≡ (slot k i).rtime + k.ticks)
      × (p.killed ≡ (leb (suc limit) p.rtime || (slot k i).killed))
unfolding account
account-charges start_run i prev k limit lt e le =
    let q =
      get_or-set_self k.ptable i (charge start_run k.ticks (not (prev == i + 1)) (slot k i)) blank
        lt in
    rw q (omega arith, rw e (ground arith))
