-- ===== src/Disk/LogRoom.antt =====
-- How much room in the header of the log the calls of `log_write` take.
use col.Base.{
  List, arith, inl, inr, some, some-injective, subst, sym, true, Option-cases, ℕ, ◌+◌, ◌∷◌, ◌∙◌,
  ◌≡◌, ◌≤◌,
}
use col.Disk.{Disk, lh_n, log_fits, find_free, balloc, bzero, mark}
use col.Disk.Blocks.{taken, balloc_eq, balloc_fails}

-- From `l` to `l'` at most `k` blocks came into the header, and where those fit no call panicked.
pub record Logs (k : ℕ) (l l' : List ℕ) : Type 0 where
  pub count : lh_n l' ≤ lh_n l + k
  pub fits : (room : ℕ) → log_fits room l ≡ true → lh_n l + k ≤ room → log_fits room l' ≡ true

pub nothing-Logs : (k : ℕ) (l : List ℕ) → Logs k l l
nothing-Logs k l = record { count = omega arith; fits = λ room h le. h }

pub one-Logs : (b : ℕ) (l : List ℕ) → Logs 1 l (b ∷ l)
unfolding lh_n log_fits
one-Logs b l = record { count = ground arith; fits = λ room h le. ground arith }

pub Logs-then :
    (k m n : ℕ) (l l1 l2 : List ℕ) → k + m ≤ n → Logs k l l1 → Logs m l1 l2 → Logs n l l2
Logs-then k m n l l1 l2 le a b = record {
  count = let c = a.count in let d = b.count in omega arith;
  fits = λ room h small. let c = a.count in b.fits room (a.fits room h (omega arith)) (omega arith);
}

-- `balloc` logs the block of the free map and the block that it clears.
pub balloc-Logs : (d d' : Disk) (x : ℕ) → balloc d ≡ some (x, d') → Logs 2 d.logged d'.logged
unfolding bzero mark
balloc-Logs d d' x e = elim (Option-cases (find_free d.size d 0)) [
  | inl f ↦ cc (balloc_fails d f)
  | inr (z, f) ↦
      let q : some (z, taken z d) ≡ some (x, d') = sym (balloc_eq d z f) ∙ e in
      subst (λ (r : ℕ × Disk). Logs 2 d.logged r.1.logged) (some-injective _ _ q)
        (Logs-then 1 1 2 _ _ _ (omega arith) (one-Logs _ d.logged) (one-Logs z _))
]
