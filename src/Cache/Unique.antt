-- ===== src/Cache/Unique.antt =====
-- The buffers of one block, through the calls of bio.c.
use col.Base.{
  count_up-keeps, List, Option-cases, [], arith, if◌then◌else◌, inl, inr, none, refl, some, ℕ, ◌&&◌,
  ◌+◌, ◌<◌, ◌==◌, ◌∷◌, ◌≡◌, ◌≢◌, ◌≤◌,
}
use col.Cache.{binit, zeroed, nbuf, Buf, is_hit, use_cached, recycle, bget, unlink, lower, brelse}

-- How many buffers stand for a block.
unfoldable pub holders : ℕ → ℕ → List Buf → ℕ
holders dev blockno [] = 0
holders dev blockno (b ∷ bs) = (if is_hit dev blockno b then 1 else 0) + holders dev blockno bs

-- Device 0 is the one of the buffers that were never used.
abbrev pub Unique : List Buf → Type 0
Unique bs = (dev blockno : ℕ) → dev ≢ 0 → holders dev blockno bs ≤ 1

use_cached-some :
    (d n : ℕ) (bs bs' : List Buf) (a : ℕ)
    → use_cached d n bs ≡ some (a, bs')
    → (dev blockno : ℕ) → holders dev blockno bs' ≡ holders dev blockno bs
unfolding use_cached holders
use_cached-some d n [] bs' a e dev blockno = cc
use_cached-some d n (b ∷ bs) bs' a e dev blockno = elim (Option-cases (use_cached d n bs)) [
  | inl f ↦ ground arith
  | inr ((x, xs), f) ↦ ground (arith, use_cached-some d n bs xs x f dev blockno)
]

use_cached-hit :
    (d n : ℕ) (bs bs' : List Buf) (a : ℕ) → use_cached d n bs ≡ some (a, bs') → 0 < holders d n bs'
unfolding use_cached holders
use_cached-hit d n [] bs' a e = cc
use_cached-hit d n (b ∷ bs) bs' a e = elim (Option-cases (use_cached d n bs)) [
  | inl f ↦ ground arith
  | inr ((x, xs), f) ↦ ground (arith, use_cached-hit d n bs xs x f)
]

pub use_cached-none : (d n : ℕ) (bs : List Buf) → use_cached d n bs ≡ none → holders d n bs ≡ 0
unfolding use_cached holders
use_cached-none d n [] e = refl
use_cached-none d n (b ∷ bs) e = elim (Option-cases (use_cached d n bs)) [
  | inl f ↦ ground (arith, use_cached-none d n bs f)
  | inr ((x, xs), f) ↦ ground arith
]

-- Recycling gives the block one buffer more, and no other block.
recycle-some :
    (d n : ℕ) (bs bs' : List Buf) (a : ℕ)
    → recycle d n bs ≡ some (a, bs')
    → (dev blockno : ℕ)
    → holders dev blockno bs' ≤ holders dev blockno bs + (if d == dev && n == blockno then 1 else 0)
unfolding recycle holders
recycle-some d n [] bs' a e dev blockno = cc
recycle-some d n (b ∷ bs) bs' a e dev blockno = elim (Option-cases (recycle d n bs)) [
  | inl f ↦ ground arith
  | inr ((x, xs), f) ↦ ground (arith, recycle-some d n bs xs x f dev blockno)
]

recycle-hit :
    (d n : ℕ) (bs bs' : List Buf) (a : ℕ) → recycle d n bs ≡ some (a, bs') → 0 < holders d n bs'
unfolding recycle holders
recycle-hit d n [] bs' a e = cc
recycle-hit d n (b ∷ bs) bs' a e = elim (Option-cases (recycle d n bs)) [
  | inl f ↦ ground arith
  | inr ((x, xs), f) ↦ ground (arith, recycle-hit d n bs xs x f)
]

-- Getting a block of a real device succeeds with just one buffer for the block, and leaves at most
-- one for every other block, when this was so before.
pub bget-Unique :
    (d n : ℕ) (bs bs' : List Buf) (a : ℕ)
    → Unique bs
    → d ≢ 0
    → bget d n bs ≡ some (a, bs')
    → Unique bs' × (holders d n bs' ≡ 1)
unfolding bget
bget-Unique d n bs bs' a u ne e = elim (Option-cases (use_cached d n bs)) [
  | inr ((x, xs), f) ↦
      let q : use_cached d n bs ≡ some (a, bs') = ground arith in
      let same = use_cached-some d n bs bs' a q in
      (
        λ dev blockno real. omega (arith, same dev blockno, u dev blockno real),
        omega (arith, same d n, u d n ne, use_cached-hit d n bs bs' a q),
      )
  | inl f ↦
      let q : recycle d n bs ≡ some (a, bs') = ground arith in
      let more = recycle-some d n bs bs' a q in
      let new = use_cached-none d n bs f in
      (
        λ dev blockno real. ground (arith, more dev blockno, u dev blockno real),
        ground (arith, more d n, recycle-hit d n bs bs' a q),
      )
]

holders-unlink :
    (a : ℕ) (bs xs : List Buf) (x : Buf)
    → unlink a bs ≡ some (x, xs)
    → (dev blockno : ℕ) → holders dev blockno (x ∷ xs) ≡ holders dev blockno bs
unfolding unlink holders
holders-unlink a [] xs x e dev blockno = cc
holders-unlink a (b ∷ bs) xs x e dev blockno = elim (Option-cases (unlink a bs)) [
  | inl f ↦ ground arith
  | inr ((y, ys), f) ↦ ground (arith, holders-unlink a bs ys y f dev blockno)
]

holders-lower :
    (a : ℕ) (bs : List Buf) (dev blockno : ℕ)
    → holders dev blockno (lower a bs) ≡ holders dev blockno bs
unfolding lower holders
holders-lower a [] dev blockno = refl
holders-lower a (b ∷ bs) dev blockno = ground (arith, holders-lower a bs dev blockno)

holders-brelse :
    (a : ℕ) (bs : List Buf) (dev blockno : ℕ)
    → holders dev blockno (brelse a bs) ≡ holders dev blockno bs
unfolding brelse holders
holders-brelse a bs dev blockno = elim (Option-cases (unlink a bs)) [
  | inl f ↦ rw (f, brelse) refl
  | inr ((x, xs), f) ↦
      ground (arith, holders-unlink a bs xs x f dev blockno, holders-lower a bs dev blockno)
]

-- What start-up, gets of blocks of real devices and releases make of the cache.
pub data Run : List Buf → Type 0 where
  booted : Run binit
  gets : {bs bs' : List Buf} (d n a : ℕ) → Run bs → d ≢ 0 → bget d n bs ≡ some (a, bs') → Run bs'
  releases : {bs : List Buf} (a : ℕ) → Run bs → Run (brelse a bs)

binit-Unique : Unique binit
unfolding binit holders
binit-Unique dev blockno real =
    let none_real =
      count_up-keeps (λ k bs. holders dev blockno bs ≡ 0) (λ i bs. zeroed i ∷ bs) nbuf 0 nbuf []
        (omega arith) (λ i bs lt h. ground arith) refl in
    omega arith

-- However gets and releases follow each other from start-up on, no block of a real device ever has
-- two buffers.
pub Run-Unique : {bs : List Buf} → Run bs → Unique bs
Run-Unique booted dev blockno real = binit-Unique dev blockno real
Run-Unique (gets {bs} {bs'} d n a r ne e) dev blockno real =
    (bget-Unique d n bs bs' a (Run-Unique r) ne e).0 dev blockno real
Run-Unique (releases {bs} a r) dev blockno real =
    omega (arith, holders-brelse a bs dev blockno, Run-Unique r dev blockno real)
