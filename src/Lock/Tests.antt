-- ===== src/Lock/Tests.antt =====
-- Spinlocks at concrete cpus.
use native.Mathlib.Decide.{ℕ_discrete}
use col.Base.{Option, ◌≢◌, ℕ, ◌<◌, refl, ◌≡◌, true, false, some, arith}
use col.Lock.{
  ℕ_discrete, records, spins, wins, pops, reads_free, moves, start, later, popcli, pushcli, Cpu,
  acquires,
}
use col.Lock.Exclusion.{Reach-Exclusive}
use col.Lock.Nesting.{Balanced, nested, done, Balanced-IsRestored}

abbrev open_cpu : Cpu
open_cpu = record { flag = true; ncli = 0; intena = false }

-- Two nested calls of `pushcli`, and their `popcli`s.
twice : Balanced open_cpu (record { flag = true; ncli = 0; intena = true })
unfolding pushcli popcli
twice = nested (nested done refl done) refl done

Balanced-IsRestored_example : ◌≡◌ {A = ℕ} 0 0 × (true ≡ true) × (0 < 0 → true ≡ false)
unfolding pushcli popcli
Balanced-IsRestored_example = Balanced-IsRestored (λ p. absurd (omega arith)) twice

-- Cpu 1 takes the lock while cpu 0 spins.
Reach-Exclusive_example :
    ◌≡◌ {A = ℕ} 1 1 × (false ≡ false) × (◌≢◌ {A = ℕ} 1 0) × (◌≡◌ {A = Option ℕ} (some 1) (some 1))
unfolding pushcli popcli ℕ_discrete
Reach-Exclusive_example =
    Reach-Exclusive 1 1
      (later
        (later
          (later
            (later
              (later
                (later
                  (later (later (later start (moves 0 acquires)) (moves 1 acquires))
                    (moves 0 (reads_free refl)))
                  (moves 1 (reads_free refl)))
                (moves 1 (pops refl)))
              (moves 0 (pops refl)))
            (moves 1 (wins refl)))
          (moves 0 (spins (omega arith))))
        (moves 1 records))
      refl refl
