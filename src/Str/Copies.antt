-- ===== src/Str/Copies.antt =====
-- What `safestrcpy` and `strncpy` write.
use col.Base.{
  Bool-cases, ap, arith, inl, inr, pos, refl, suc, zero, ℕ, ◌+◌, ◌<◌, ◌==◌, ◌∙◌, ◌≡◌, ◌≢◌, ◌≤◌, ◌⊎◌,
}
use col.Str.Memory.{Mem, put}
use col.Str.{safe_loop, safestrcpy}

-- `m'` has at `s` the bytes that `m` has at `t` up to the first NUL among the first `n`, or `n` of
-- them, and a NUL behind them.
abbrev pub Copied : Mem → Mem → ℕ → ℕ → ℕ → Type 0
Copied m m' s t n =
    (k : ℕ) × (k ≤ n)
    × (m' (s + k) ≡ 0)
    × ((i : ℕ) → i < k → (m' (s + i) ≡ m (t + i)) × (m (t + i) ≢ 0))
    × ((k ≡ n) ⊎ (m (t + k) ≡ 0))

safe_loop-frame : (n s t : ℕ) (m : Mem) (x : ℕ) → (x < s) ⊎ (s + n < x) → safe_loop s t n m x ≡ m x
unfolding safe_loop
safe_loop-frame zero s t m x h = ground arith
safe_loop-frame (suc n) s t m x h =
    ground (arith, safe_loop-frame n (s + 1) (t + 1) (put m s (m t)) x)

safe_loop_cons :
    (s t n : ℕ) (m m' : Mem)
    → m t ≢ 0
    → m' s ≡ m t
    → (t + suc n < s) ⊎ (s + suc n < t)
    → Copied (put m s (m t)) m' (s + 1) (t + 1) n
    → Copied m m' s t (suc n)
safe_loop_cons s t n m m' ne head apart (k, le, nul, bytes, why) = (
  suc k,
  omega arith,
  ap m' (omega arith) ∙ nul,
  each,
  elim why [ inl e ↦ inl (ap suc e) | inr z ↦ inr (ground (arith, nul)) ],
)
  where
    each : (i : ℕ) → i < suc k → (m' (s + i) ≡ m (t + i)) × (m (t + i) ≢ 0)
    each zero h = (ground arith, λ e. ne (ground arith))
    each (suc i) h = ground (arith, bytes i)

safe_loop-Copied :
    (n s t : ℕ) (m : Mem) → (t + n < s) ⊎ (s + n < t) → Copied m (safe_loop s t n m) s t n
unfolding safe_loop
safe_loop-Copied zero s t m apart =
    (0, ground arith, ground arith, (λ i h. absurd (omega arith)), inl refl)
safe_loop-Copied (suc n) s t m apart = elim (Bool-cases (m t == 0)) [
  | inl e ↦ rw e (0, omega arith, ground arith, (λ i h. absurd (omega arith)), inr (ground arith))
  | inr e ↦ rw e (
      safe_loop_cons s t n m (safe_loop (s + 1) (t + 1) n (put m s (m t))) (λ z. ground arith)
        (safe_loop-frame n (s + 1) (t + 1) (put m s (m t)) s (inl (omega arith)) ∙ ground arith)
        apart (safe_loop-Copied n (s + 1) (t + 1) (put m s (m t)) (ground arith)))
]

-- `safestrcpy(s, t, n + 1)` leaves a NUL-terminated copy of at most `n` bytes of `t` when the two
-- ranges are apart, and changes nothing outside the `n + 1` bytes at `s`.
pub safestrcpy-Copied :
    (s t n : ℕ) (m : Mem)
    → (t + n < s) ⊎ (s + n < t)
    → let m' = safestrcpy s t (pos (suc n)) m in
      Copied m m' s t n × ((x : ℕ) → (x < s) ⊎ (s + n < x) → m' x ≡ m x)
unfolding safestrcpy
safestrcpy-Copied s t n m apart = (safe_loop-Copied n s t m apart, safe_loop-frame n s t m)
