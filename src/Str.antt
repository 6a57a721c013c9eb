-- ===== src/Str.antt =====
-- The byte routines of xv6-public_2/string.c over a flat memory. A pointer is the number of its
-- byte; no pointer of these routines runs past the end of the address space.
pub mod Memory
pub mod Moves
pub mod Compare
pub mod Copies
mod Tests
use mathlib.Core.Option
use Memory.{Mem, put}
use col.Base.{
  negsuc, pos, Option, if◌then◌else◌, ltb, map, none, not, some, sub_ℕ, suc, zero, ℕ, ℤ, ◌%◌, ◌&&◌,
  ◌*◌, ◌+◌, ◌-◌, ◌/◌, ◌==◌,
}

-- `rep stosb` and `rep stosl` of x86.h: `n` bytes, or `n` little-endian words.
pub stosb : ℕ → ℕ → ℕ → Mem → Mem
stosb a c zero m = m
stosb a c (suc n) m = stosb (a + 1) c n (put m a (c % 256))

pub stosl : ℕ → ℕ → ℕ → Mem → Mem
stosl a w zero m = m
stosl a w (suc n) m = stosl (a + 4) w n (
    put (put (put (put m a (w % 256)) (a + 1) (w / 256 % 256)) (a + 2) (w / 65536 % 256)) (a + 3)
      (w / 16777216 % 256))

-- The four shifted copies of a byte have no bit in common, so their disjunction is their sum.
abbrev pub spread : ℕ → ℕ
spread c = c * 16777216 + c * 65536 + c * 256 + c

pub memset : ℕ → ℕ → ℕ → Mem → Mem
memset dst c n m =
    if dst % 4 == 0 && n % 4 == 0 then stosl dst (spread (c % 256)) (n / 4) m else stosb dst c n m

pub memcmp : ℕ → ℕ → ℕ → Mem → ℤ
memcmp s1 s2 zero m = pos 0
memcmp s1 s2 (suc n) m =
    let rest = memcmp (s1 + 1) (s2 + 1) n m in if m s1 == m s2 then rest else sub_ℕ (m s1) (m s2)

-- The loop downwards: `s` and `d` stand at the ends.
pub copy_down : ℕ → ℕ → ℕ → Mem → Mem
copy_down s d zero m = m
copy_down s d (suc n) m = copy_down (s - 1) (d - 1) n (put m (d - 1) (m (s - 1)))

pub copy_up : ℕ → ℕ → ℕ → Mem → Mem
copy_up s d zero m = m
copy_up s d (suc n) m = copy_up (s + 1) (d + 1) n (put m d (m s))

pub memmove : ℕ → ℕ → ℕ → Mem → Mem
memmove dst src n m =
    if ltb src dst && ltb dst (src + n)
    then copy_down (src + n) (dst + n) n m
    else copy_up src dst n m

pub strncmp : ℕ → ℕ → ℕ → Mem → ℤ
strncmp p q zero m = pos 0
strncmp p q (suc n) m =
    let rest = strncmp (p + 1) (q + 1) n m in
    if not (m p == 0) && m p == m q then rest else sub_ℕ (m p) (m q)

-- `while(n-- > 0) *s++ = 0;`
pub zero_fill : ℕ → ℕ → Mem → Mem
zero_fill s zero m = m
zero_fill s (suc n) m = zero_fill (s + 1) n (put m s 0)

-- The byte copied last ends the first loop; the second loop fills the rest.
pub strncpy : ℕ → ℕ → ℕ → Mem → Mem
strncpy s t zero m = m
strncpy s t (suc n) m =
    let rest = strncpy (s + 1) (t + 1) n (put m s (m t)) in
    if m t == 0 then zero_fill (s + 1) n (put m s (m t)) else rest

-- The loop of `safestrcpy` after `n - 1` is known: it stops behind a NUL that it copied.
pub safe_loop : ℕ → ℕ → ℕ → Mem → Mem
safe_loop s t zero m = put m s 0
safe_loop s t (suc n) m =
    let rest = safe_loop (s + 1) (t + 1) n (put m s (m t)) in
    if m t == 0 then put (put m s (m t)) (s + 1) 0 else rest

pub safestrcpy : ℕ → ℕ → ℤ → Mem → Mem
safestrcpy s t (negsuc n) m = m
safestrcpy s t (pos zero) m = m
safestrcpy s t (pos (suc n)) m = safe_loop s t n m

-- With fuel for the bytes up to the NUL.
pub strlen : ℕ → ℕ → Mem → Option ℕ
strlen zero s m = none
strlen (suc fuel) s m =
    let rest = Option.map (λ n. n + 1) (strlen fuel (s + 1) m) in if m s == 0 then some 0 else rest
