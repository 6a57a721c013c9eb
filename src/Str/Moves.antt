-- ===== src/Str/Moves.antt =====
-- `memmove` and `memset` of string.c.
use col.Base.{
  ◌/◌, ◌%◌, ◌*◌, arith, if◌then◌else◌, leb, ltb, suc, zero, ℕ, ◌&&◌, ◌+◌, ◌-◌, ◌<◌, ◌≡◌, ◌≤◌, ◌⊎◌,
}
use col.Str.Memory.{Mem, put}
use col.Str.{copy_up, copy_down, memmove, stosb, stosl, spread, memset}

-- Reading a copied range: what stood at the source, and elsewhere what stood there.
abbrev pub shifted : ℕ → ℕ → ℕ → Mem → ℕ → ℕ
shifted dst src n m x = if leb dst x && ltb x (dst + n) then m (src + (x - dst)) else m x

copy_up-shifted :
    (n s d : ℕ) (m : Mem) (x : ℕ) → (d ≤ s) ⊎ (s + n ≤ d) → copy_up s d n m x ≡ shifted d s n m x
unfolding copy_up
copy_up-shifted zero s d m x h = ground arith
copy_up-shifted (suc n) s d m x h =
    ground (arith, copy_up-shifted n (s + 1) (d + 1) (put m d (m s)) x)

copy_down-shifted :
    (n s d : ℕ) (m : Mem) (x : ℕ) → s < d → copy_down (s + n) (d + n) n m x ≡ shifted d s n m x
unfolding copy_down
copy_down-shifted zero s d m x h = ground arith
copy_down-shifted (suc n) s d m x h =
    let es : s + suc n - 1 ≡ s + n = omega arith in
    let ed : d + suc n - 1 ≡ d + n = omega arith in
    rw (es, ed) (ground (arith, copy_down-shifted n s d (put m (d + n) (m (s + n))) x h))

-- `memmove` leaves at the destination the bytes that stood at the source, and changes no other
-- byte, however the two ranges overlap.
pub memmove-shifted :
    (dst src n : ℕ) (m : Mem) (x : ℕ) → memmove dst src n m x ≡ shifted dst src n m x
unfolding memmove
memmove-shifted dst src n m x =
    ground (arith, copy_down-shifted n src dst m x, copy_up-shifted n src dst m x)

stosb-fills :
    (n a c : ℕ) (m : Mem) (x : ℕ)
    → stosb a c n m x ≡ (if leb a x && ltb x (a + n) then c % 256 else m x)
unfolding stosb
stosb-fills zero a c m x = ground arith
stosb-fills (suc n) a c m x = ground (arith, stosb-fills n (a + 1) c (put m a (c % 256)) x)

spread_bytes :
    (c : ℕ)
    → c < 256
    → (spread c % 256 ≡ c)
      × (spread c / 256 % 256 ≡ c)
      × (spread c / 65536 % 256 ≡ c)
      × (spread c / 16777216 % 256 ≡ c)
spread_bytes c h = omega arith

stosl-fills :
    (n a c : ℕ) (m : Mem) (x : ℕ)
    → c < 256
    → stosl a (spread c) n m x ≡ (if leb a x && ltb x (a + 4 * n) then c else m x)
unfolding stosl
stosl-fills zero a c m x h = ground arith
stosl-fills (suc n) a c m x h =
    let (e0, e1, e2, e3) = spread_bytes c h in
    rw (e0, e1, e2, e3)
      (ground (
        arith,
        stosl-fills n (a + 4) c (put (put (put (put m a c) (a + 1) c) (a + 2) c) (a + 3) c) x h,
      ))

-- `memset` sets every byte of the range to the low byte of `c` and no other, whether it stores
-- words (an aligned range) or bytes.
pub memset-fills :
    (dst c n : ℕ) (m : Mem) (x : ℕ)
    → memset dst c n m x ≡ (if leb dst x && ltb x (dst + n) then c % 256 else m x)
unfolding memset
memset-fills dst c n m x =
    ground (arith, stosb-fills n dst c m x, stosl-fills (n / 4) dst (c % 256) m x)
