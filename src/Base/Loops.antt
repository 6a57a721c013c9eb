-- ===== src/Base/Loops.antt =====
-- C's counted loop, `for (k = i; k < i + count; k++) s = body k s`, and its invariant rule.
use Prim.Native.Nat.{ℕ, zero, suc, ◌+◌, ◌<◌}
use mathlib.Core.Path.{◌≡◌, subst}
use native.Mathlib.Omega.{arith}

unfoldable pub count_up {ℓ} : {S : Type ℓ} → (count i : ℕ) → (ℕ → S → S) → S → S
count_up zero i body s = s
count_up (suc count) i body s = count_up count (i + 1) body (body i s)

-- What the body carries from each round to the next holds at the end `j`.
pub count_up-keeps {ℓ κ} :
    {S : Type ℓ} (P : ℕ → S → Type κ) (body : ℕ → S → S) (count i j : ℕ) (s : S)
    → i + count ≡ j
    → ((k : ℕ) (u : S) → k < j → P k u → P (suc k) (body k u))
    → P i s
    → P j (count_up count i body s)
unfolding count_up
count_up-keeps P body zero i j s e keep p = let e' : i ≡ j = omega arith in subst (λ k. P k s) e' p
count_up-keeps P body (suc count) i j s e keep p =
    let next : suc i ≡ i + 1 = omega arith in
    count_up-keeps P body count (i + 1) j (body i s) (omega arith) keep
      (subst (λ k. P k (body i s)) next (keep i s (omega arith) p))
