-- ===== src/Proc/Sched/Waits.antt =====
-- How far each process is ahead of one that waits, and the sum of it over the table.
use col.Base.{arith, inl, inr, sub_ℕ, true, ℕ, ◌*◌, ◌+◌, ◌-◌, ◌<◌, ◌≡◌, ◌≤◌}
use col.Proc.{Proc}
use col.Proc.Sched.{calculate_dynamic_priority, ltz, eqz, choice}
use col.Proc.Sched.Order.{NoBetter}

-- The number of turns that `q` can take before `p`, at the most.
abbrev pub lead : Proc → Proc → ℕ
lead p q =
    q.init_priority
    + 2 * q.waiting_time
    + p.rtime
    + 1
    - (p.init_priority + 2 * p.waiting_time + q.rtime)

ltz-sub_ℕ : (a b c d : ℕ) → ltz (sub_ℕ a b) (sub_ℕ c d) ≡ true → a + d < c + b
ltz-sub_ℕ a b c d h = ground arith

eqz-sub_ℕ : (a b c d : ℕ) → eqz (sub_ℕ a b) (sub_ℕ c d) ≡ true → a + d ≡ c + b
eqz-sub_ℕ a b c d h = ground arith

-- Who is chosen before `p` has a lead.
pub NoBetter-lead : (i j : ℕ) (p q : Proc) → NoBetter (choice i p) (choice j q) → 1 ≤ lead p q
unfolding calculate_dynamic_priority
NoBetter-lead i j p q (inl h) = omega (
  arith,
  ltz-sub_ℕ (p.init_priority + 2 * (p.waiting_time + 1)) (1 * p.rtime)
      (q.init_priority + 2 * (q.waiting_time + 1)) (1 * q.rtime) h,
)
NoBetter-lead i j p q (inr (h, _)) = omega (
  arith,
  eqz-sub_ℕ (p.init_priority + 2 * (p.waiting_time + 1)) (1 * p.rtime)
      (q.init_priority + 2 * (q.waiting_time + 1)) (1 * q.rtime) h,
)
