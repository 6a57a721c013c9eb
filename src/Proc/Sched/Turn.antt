-- ===== src/Proc/Sched/Turn.antt =====
-- Turns of the processor: a round of `scheduler` in proc.c, a run of `burst` ticks that ends with `yield`
-- at a timer interrupt, and the accounts.
use col.Base.{Option, none, some, suc, zero, ℕ, ◌+◌}
use col.Proc.{Kernel}
use col.Proc.Wake.{yield}
use col.Proc.Sched.{Choice, schedule, account}

-- What a turn leaves: the kernel, `prev_proc`, and who ran.
pub record Turn : Type 0 where
  pub kernel : Kernel
  pub prev : ℕ
  pub ran : Option Choice

unfoldable pub run_burst : (burst prev start_run : ℕ) → Choice → Kernel → Turn
run_burst burst prev start_run c k =
    let (k', prev') =
      account start_run c.at prev (yield c.at (record k { ticks = k.ticks + burst })) in
    record { kernel = k'; prev = prev'; ran = some c }

unfoldable pub turn : (burst prev : ℕ) → Kernel → Turn
turn burst prev k =
    let (k1, found) = schedule k in
    elim found [
      | none ↦ record { kernel = k1; prev = prev; ran = none }
      | some c ↦ run_burst burst prev k.ticks c k1
    ]

-- Who runs in turn `n`, where turn `i` takes `bursts i` ticks.
unfoldable pub nth_turn : (ℕ → ℕ) → ℕ → (prev : ℕ) → Kernel → Option Choice
nth_turn bursts zero prev k = (turn (bursts 0) prev k).ran
nth_turn bursts (suc n) prev k =
    let t = turn (bursts 0) prev k in nth_turn (λ i. bursts (i + 1)) n t.prev t.kernel
