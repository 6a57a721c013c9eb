-- ===== src/Proc/Sched/Order.antt =====
-- The order in which `better` prefers: a higher priority, and on a tie the lower pid.
use col.Base.{
  ==_iff, Bool-cases, ap, arith, false, inl, inr, ltb, negsuc, pos, refl, subst, sym, true, ℤ, ◌≡◌,
  ◌≤◌, ◌⊎◌,
}
use col.Proc.Sched.{Choice, ltz, eqz, better}

-- `d` is no better than `c`.
abbrev pub NoBetter : Choice → Choice → Type 0
NoBetter d c =
    (ltz d.priority c.priority ≡ true) ⊎ ((eqz d.priority c.priority ≡ true) × (c.pid ≤ d.pid))

eqz_refl : (a : ℤ) → eqz a a ≡ true
eqz_refl (pos n) = ground arith
eqz_refl (negsuc n) = ground arith

pub NoBetter-refl : (c : Choice) → NoBetter c c
NoBetter-refl c = inr (eqz_refl c.priority, omega arith)

ltz_trans : (a b c : ℤ) → ltz a b ≡ true → ltz b c ≡ true → ltz a c ≡ true
ltz_trans (pos a) (pos b) (pos c) h k = ground arith
ltz_trans (pos a) (pos b) (negsuc c) h k = cc
ltz_trans (pos a) (negsuc b) c h k = cc
ltz_trans (negsuc a) (pos b) (pos c) h k = refl
ltz_trans (negsuc a) (pos b) (negsuc c) h k = cc
ltz_trans (negsuc a) (negsuc b) (pos c) h k = refl
ltz_trans (negsuc a) (negsuc b) (negsuc c) h k = ground arith

pub eqz-eq : (a b : ℤ) → eqz a b ≡ true → a ≡ b
eqz-eq (pos a) (pos b) h = ap pos ((==_iff a b).0 h)
eqz-eq (pos a) (negsuc b) h = cc
eqz-eq (negsuc a) (pos b) h = cc
eqz-eq (negsuc a) (negsuc b) h = ap negsuc ((==_iff a b).0 h)

pub NoBetter-trans : (a b c : Choice) → NoBetter a b → NoBetter b c → NoBetter a c
NoBetter-trans a b c (inl h) (inl k) = inl (ltz_trans a.priority b.priority c.priority h k)
NoBetter-trans a b c (inl h) (inr (e, k)) =
    inl (subst (λ z. ltz a.priority z ≡ true) (eqz-eq b.priority c.priority e) h)
NoBetter-trans a b c (inr (e, h)) (inl k) =
    inl (subst (λ z. ltz z c.priority ≡ true) (sym (eqz-eq a.priority b.priority e)) k)
NoBetter-trans a b c (inr (e, h)) (inr (f, k)) =
    inr (subst (λ z. eqz a.priority z ≡ true) (eqz-eq b.priority c.priority f) e, omega arith)

ltz_total : (a b : ℤ) → ltz a b ≡ false → eqz b a ≡ false → ltz b a ≡ true
ltz_total (pos a) (pos b) h k = ground arith
ltz_total (pos a) (negsuc b) h k = refl
ltz_total (negsuc a) (pos b) h k = cc
ltz_total (negsuc a) (negsuc b) h k = ground arith

eqz_sym : (a b : ℤ) → eqz a b ≡ true → eqz b a ≡ true
eqz_sym a b h = subst (λ z. eqz b z ≡ true) (sym (eqz-eq a b h)) (eqz_refl b)

-- `better` returns one of its arguments, and neither is better than what it returns.
pub better_lem :
    (a b : Choice)
    → ((better a b ≡ a) ⊎ (better a b ≡ b)) × NoBetter a (better a b) × NoBetter b (better a b)
unfolding better
better_lem a b = elim (Bool-cases (ltz a.priority b.priority)) [
  | inl lt ↦ rw lt (inr refl, inl lt, NoBetter-refl b)
  | inr ge ↦ elim (Bool-cases (eqz b.priority a.priority)) [
    | inr ne ↦ rw (ge, ne) (inl refl, NoBetter-refl a, inl (ltz_total a.priority b.priority ge ne))
    | inl eq ↦ elim (Bool-cases (ltb b.pid a.pid)) [
      | inl lo ↦
          rw (ge, eq, lo)
            (inr refl, inr (eqz_sym b.priority a.priority eq, ground arith), NoBetter-refl b)
      | inr hi ↦ rw (ge, eq, hi) (inl refl, NoBetter-refl a, inr (eq, ground arith))
    ]
  ]
]
