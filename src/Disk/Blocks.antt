-- ===== src/Disk/Blocks.antt =====
-- `balloc` and `bfree` of fs.c.
use col.Base.{
  ==_ne, Bool-cases, Option-cases, arith, if◌then◌else◌, inl, inr, none, refl, some, some-injective,
  subst, sym, ℕ, ◌<◌, ◌==◌, ◌↔◌, ◌∙◌, ◌≡◌, ◌≢◌,
}
use col.Disk.{Disk, bit, bzero, to_log, mark, unmark, bblock, find_free, balloc, bfree}
use col.Disk.Bits.{IsBytes, bit-mark, mark-IsBytes, bit-unmark, unmark-IsBytes}
use col.Disk.Search.{IsFirst, find_free-some, find_free-none}

-- What `balloc` makes of the disk.
abbrev pub taken : ℕ → Disk → Disk
taken x d = bzero x (to_log (bblock d x) (mark x d))

pub balloc_eq : (d : Disk) (x : ℕ) → find_free d.size d 0 ≡ some x → balloc d ≡ some (x, taken x d)
unfolding balloc
balloc_eq d x f = rw (f, balloc) refl

pub balloc_fails : (d : Disk) → find_free d.size d 0 ≡ none → balloc d ≡ none
unfolding balloc
balloc_fails d f = rw (f, balloc) refl

-- A call of `balloc` that gives block `x`.
pub record Allocated (d d' : Disk) (x : ℕ) : Type 0 where
  pub found : IsFirst d 0 x
  pub marked : (y : ℕ) → bit d' y ≡ (if y == x then 1 else bit d y)
  pub zeroed : (i : ℕ) → d'.bytes x i ≡ 0
  pub others : (y i : ℕ) → y ≢ x → d'.bytes y i ≡ d.bytes y i
  pub is_bytes : IsBytes d'
  pub size_eq : d'.size ≡ d.size

taken-Allocated : (d : Disk) (x : ℕ) → IsBytes d → IsFirst d 0 x → Allocated d (taken x d) x
unfolding bzero mark
taken-Allocated d x v f = record {
  found = f;
  marked = λ y. bit-mark d x y v f.free;
  zeroed = λ i. ground arith;
  others = λ y i ne. ground arith;
  is_bytes = mark-IsBytes d x v f.free;
  size_eq = refl;
}

-- On a free map of bytes `balloc` takes the first free block below the disk's size, marks it and no
-- other, and zeroes it and no other.
pub balloc-Allocated :
    (d d' : Disk) (x : ℕ) → IsBytes d → balloc d ≡ some (x, d') → Allocated d d' x
balloc-Allocated d d' x v e = elim (Option-cases (find_free d.size d 0)) [
  | inl f ↦ cc (balloc_fails d f)
  | inr (z, f) ↦
      let q : some (z, taken z d) ≡ some (x, d') = sym (balloc_eq d z f) ∙ e in
      subst (λ r. Allocated d r.1 r.0) (some-injective _ _ q)
        (taken-Allocated d z v (find_free-some d.size d 0 z f))
]

-- `balloc` panics exactly when every block below the disk's size is in use.
pub balloc-none : (d : Disk) → (balloc d ≡ none) ↔ ((y : ℕ) → y < d.size → bit d y ≢ 0)
balloc-none d = elim (Option-cases (find_free d.size d 0)) [
  | inl f ↦ (
    (λ e y lt. find_free-none d.size d 0 f y (omega arith) (omega arith) lt),
    λ h. balloc_fails d f,
  )
  | inr (z, f) ↦ (
    (λ e. cc (balloc_eq d z f)),
    λ h. let r = find_free-some d.size d 0 z f in absurd (h z r.within.1 r.free),
  )
]

-- What `bfree` does to the disk.
pub record Freed (d d' : Disk) (b : ℕ) : Type 0 where
  pub cleared : (y : ℕ) → bit d' y ≡ (if y == b then 0 else bit d y)
  pub kept : (y i : ℕ) → d'.bytes y i ≡ d.bytes y i
  pub is_bytes : IsBytes d'
  pub size_eq : d'.size ≡ d.size

unmark-Freed :
    (b : ℕ) (d : Disk) → IsBytes d → bit d b ≢ 0 → Freed d (to_log (bblock d b) (unmark b d)) b
unfolding unmark
unmark-Freed b d v ne = record {
  cleared = λ y. bit-unmark d b y v ne;
  kept = λ y i. refl;
  is_bytes = unmark-IsBytes d b v;
  size_eq = refl;
}

-- A call of `bfree` that does not panic, on a free map of bytes, clears the block's bit and no other,
-- and changes no block.
pub bfree-Freed : (b : ℕ) (d d' : Disk) → IsBytes d → bfree b d ≡ some d' → Freed d d' b
unfolding bfree
bfree-Freed b d d' v e = elim (Bool-cases (bit d b == 0)) [
  | inl free ↦ absurd (ground arith)
  | inr used ↦
      let q : some (to_log (bblock d b) (unmark b d)) ≡ some d' = ground arith in
      subst (λ r. Freed d r b) (some-injective _ _ q) (unmark-Freed b d v (ground arith))
]

-- A block in use is freed.
pub bfree_used : (b : ℕ) (d : Disk) → bit d b ≢ 0 → (d' : Disk) × (bfree b d ≡ some d')
unfolding bfree
bfree_used b d ne = (to_log (bblock d b) (unmark b d), rw (==_ne (bit d b) 0 ne) refl)
