-- ===== src/Str/Compare.antt =====
-- `memcmp`, `strncmp` and `strlen` of string.c.
use col.Base.{
  sub_ℕ-eq-zero, add-zero, inr, sub_ℕ, sub_ℕ_self, false, inl, some, true, ◌&&◌, ==_iff, Bool-cases,
  not, ◌<◌, ◌==◌, arith, pos, refl, suc, zero, ℕ, ◌+◌, ◌↔◌, ◌≡◌, ◌≢◌,
}
use col.Str.Memory.{Mem}
use col.Str.{memcmp, strncmp, strlen}

-- The `n` bytes at two addresses, compared one by one.
abbrev pub Agree : ℕ → ℕ → ℕ → Mem → Type 0
Agree p q zero m = Unit {0}
Agree p q (suc n) m = (m p ≡ m q) × Agree (p + 1) (q + 1) n m

-- A differing byte gives a difference that is not 0.
sub_ℕ-ne-zero : (a b : ℕ) → (a == b) ≡ false → sub_ℕ a b ≢ pos 0
sub_ℕ-ne-zero a b h e = ground (arith, sub_ℕ-eq-zero a b e)

memcmp_sound : (p q n : ℕ) (m : Mem) → memcmp p q n m ≡ pos 0 → Agree p q n m
unfolding memcmp
memcmp_sound p q zero m h = tt
memcmp_sound p q (suc n) m h = elim (Bool-cases (m p == m q)) [
  | inl e ↦ ((==_iff _ _).0 e, memcmp_sound (p + 1) (q + 1) n m (rw e at h))
  | inr e ↦ absurd (sub_ℕ-ne-zero _ _ e (rw e at h))
]

memcmp_complete : (p q n : ℕ) (m : Mem) → Agree p q n m → memcmp p q n m ≡ pos 0
unfolding memcmp
memcmp_complete p q zero m h = refl
memcmp_complete p q (suc n) m h =
    rw ((==_iff (m p) (m q)).1 h.0) (memcmp_complete (p + 1) (q + 1) n m h.1)

-- `memcmp` answers 0 exactly when the `n` bytes at the two addresses agree one by one.
pub memcmp-Agree : (p q n : ℕ) (m : Mem) → (memcmp p q n m ≡ pos 0) ↔ Agree p q n m
memcmp-Agree p q n m = (memcmp_sound p q n m, memcmp_complete p q n m)

-- C strings that agree for `n` bytes, or up to a common NUL among them.
abbrev pub AgreeToNul : ℕ → ℕ → ℕ → Mem → Type 0
AgreeToNul p q zero m = Unit {0}
AgreeToNul p q (suc n) m = (m p ≡ m q) × (m p ≢ 0 → AgreeToNul (p + 1) (q + 1) n m)

nonzero : (a : ℕ) → a ≢ 0 → not (a == 0) ≡ true
nonzero a h = ground arith

strncmp_sound : (p q n : ℕ) (m : Mem) → strncmp p q n m ≡ pos 0 → AgreeToNul p q n m
unfolding strncmp
strncmp_sound p q zero m h = tt
strncmp_sound p q (suc n) m h = elim (Bool-cases (not (m p == 0) && m p == m q)) [
  | inl e ↦ (ground arith, λ _. strncmp_sound (p + 1) (q + 1) n m (rw e at h))
  | inr e ↦ let same = sub_ℕ-eq-zero (m p) (m q) (rw e at h) in (same, λ ne. absurd (ground arith))
]

strncmp_complete : (p q n : ℕ) (m : Mem) → AgreeToNul p q n m → strncmp p q n m ≡ pos 0
unfolding strncmp
strncmp_complete p q zero m h = refl
strncmp_complete p q (suc n) m h = elim (Bool-cases (m p == 0)) [
  | inl e ↦ rw (e, ← h.0) (sub_ℕ_self (m p))
  | inr e ↦
      rw (e, (==_iff (m p) (m q)).1 h.0)
        (strncmp_complete (p + 1) (q + 1) n m (h.1 (λ z. ground arith)))
]

-- `strncmp` answers 0 exactly when the two strings agree for `n` bytes or up to a common NUL.
pub strncmp-AgreeToNul : (p q n : ℕ) (m : Mem) → (strncmp p q n m ≡ pos 0) ↔ AgreeToNul p q n m
strncmp-AgreeToNul p q n m = (strncmp_sound p q n m, strncmp_complete p q n m)

-- The bytes before the first NUL.
abbrev pub Unterminated : ℕ → ℕ → Mem → Type 0
Unterminated s zero m = Unit {0}
Unterminated s (suc k) m = (m s ≢ 0) × Unterminated (s + 1) k m

-- `strlen` counts the bytes before the first NUL, given more fuel than there are such bytes.
pub strlen-counts :
    (fuel s k : ℕ) (m : Mem)
    → k < fuel
    → Unterminated s k m
    → m (s + k) ≡ 0
    → strlen fuel s m ≡ some k
unfolding strlen
strlen-counts zero s k m h u z = absurd (omega arith)
strlen-counts (suc fuel) s zero m h u z =
    let z' : m s ≡ 0 = rw add-zero at z in rw ((==_iff (m s) 0).1 z')
strlen-counts (suc fuel) s (suc k) m h u z =
    rw
      (strlen-counts fuel (s + 1) k m (omega arith) u.1
        (let e : s + suc k ≡ s + 1 + k = omega arith in rw e at z))
      (ground arith)
