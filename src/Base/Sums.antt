-- ===== src/Base/Sums.antt =====
-- Sums over the numbers below a bound.
use Prim.Native.Nat.{ℕ, zero, suc, ◌+◌, ◌<◌, ◌≤◌}
use mathlib.Core.Path.{◌≡◌, refl, sym, ap, subst}
use mathlib.Core.Logic.{◌≢◌, inl, inr}
use native.Mathlib.Omega.{arith}
use col.Base.Tests.{◌==◌, ==_iff, Bool-cases}

unfoldable pub total : (ℕ → ℕ) → ℕ → ℕ
total f zero = 0
total f (suc n) = total f n + f n

pub total_le : (f g : ℕ → ℕ) (n : ℕ) → ((j : ℕ) → j < n → g j ≤ f j) → total g n ≤ total f n
unfolding total
total_le f g zero h = omega arith
total_le f g (suc n) h =
    omega (arith, h n (omega arith), total_le f g n (λ j lt. h j (omega arith)))

pub total_lt :
    (f g : ℕ → ℕ) (n c : ℕ)
    → ((j : ℕ) → j < n → g j ≤ f j)
    → c < n
    → g c < f c
    → total g n < total f n
unfolding total
total_lt f g zero c h lt less = absurd (omega arith)
total_lt f g (suc n) c h lt less = elim (Bool-cases (c == n)) [
  | inl e ↦
      let same : c ≡ n = (==_iff c n).0 e in
      let at : g n < f n = subst (λ m. g m < f m) same less in
      omega (arith, total_le f g n (λ j l. h j (omega arith)))
  | inr e ↦
      omega
        (arith, h n (omega arith), total_lt f g n c (λ j l. h j (omega arith)) (ground arith) less)
]

pub term-total : (f : ℕ → ℕ) (n c : ℕ) → c < n → f c ≤ total f n
unfolding total
term-total f zero c lt = absurd (omega arith)
term-total f (suc n) c lt = elim (Bool-cases (c == n)) [
  | inl e ↦ let same : f c ≡ f n = ap f ((==_iff c n).0 e) in omega arith
  | inr e ↦ omega (arith, term-total f n c (ground arith))
]

pub total_zero : (f : ℕ → ℕ) (n : ℕ) → ((j : ℕ) → j < n → f j ≡ 0) → total f n ≡ 0
unfolding total
total_zero f zero h = refl
total_zero f (suc n) h =
    omega (arith, h n (omega arith), total_zero f n (λ j lt. h j (omega arith)))

total_same : (f g : ℕ → ℕ) (n : ℕ) → ((j : ℕ) → j < n → f j ≡ g j) → total f n ≡ total g n
unfolding total
total_same f g zero h = refl
total_same f g (suc n) h =
    omega (arith, h n (omega arith), total_same f g n (λ j lt. h j (omega arith)))

-- One term less by one.
pub total_drop :
    (f g : ℕ → ℕ) (n c : ℕ)
    → c < n
    → f c ≡ g c + 1
    → ((j : ℕ) → j ≢ c → f j ≡ g j)
    → total f n ≡ total g n + 1
unfolding total
total_drop f g zero c lt at same = absurd (omega arith)
total_drop f g (suc n) c lt at same = elim (Bool-cases (c == n)) [
  | inl e ↦
      let q : c ≡ n = (==_iff c n).0 e in
      let here : f n ≡ g n + 1 = subst (λ m. f m ≡ g m + 1) q at in
      omega (arith, total_same f g n (λ j l. same j (omega arith)))
  | inr e ↦
      let ne : n ≢ c = λ q. cc ((==_iff c n).1 (sym q)) in
      omega (arith, same n ne, total_drop f g n c (ground arith) at same)
]
