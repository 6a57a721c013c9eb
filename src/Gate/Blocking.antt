-- ===== src/Gate/Blocking.antt =====
-- The calls `block` and `unblock` of xv6-public_1, and the calls that follow them.
use col.Base.{
  get_or-set_ne, sym, ap, get_or-set_self, Bool-cases, get_or-set_cases, set, refl, [], zero, suc,
  inl, inr, ◌∷◌, Bool, List, Option, arith, false, get_or, if◌then◌else◌, leb, length, length-set,
  negsuc, none, pos, some, true, ℕ, ℤ, ◌<◌, ◌==◌, ◌≡◌, ◌≢◌,
}
use col.Gate.{
  sys_fork, sys_exit, sys_block_number, sys_unblock_number, block_actual, unblock_actual, sys_block,
  sys_unblock, names_unblock, refused, runs, syscall,
}

sys_block_lem :
    (n : ℕ) (blocked : List Bool)
    → n ≢ sys_fork
    → n ≢ sys_exit
    → n < length blocked
    → sys_block (some (pos n)) blocked ≡ (set blocked n true, true)
unfolding sys_block block_actual
sys_block_lem n blocked nf ne lt = ground arith

-- A call of `sys_block` for a number other than those of fork and exit, within the flags, succeeds.
-- Then just this call is refused, but for an exec of the program unblock; every other call comes to
-- what it came to before.
pub sys_block-syscall :
    (n : ℕ) (blocked : List Bool) (path : Option (List ℕ)) (m : ℕ)
    → n ≢ sys_fork
    → n ≢ sys_exit
    → n < length blocked
    → names_unblock path ≡ false
    → let (after, done) = sys_block (some (pos n)) blocked in
      (done ≡ true)
      × (syscall (pos m) path after ≡ (if m == n then refused else syscall (pos m) path blocked))
unfolding syscall
sys_block-syscall n blocked path m nf ne lt other = rw (sys_block_lem n blocked nf ne lt) (
  refl,
  elim (Bool-cases (m == n)) [
    | inl e ↦ ground (arith, length-set blocked n true, get_or-set_self blocked n true false lt)
    | inr e ↦
        ground (
          arith,
          length-set blocked n true,
          get_or-set_ne blocked n m true false (λ q. ground arith),
        )
  ],
)

set-set_same :
    (bs : List Bool) (n : ℕ) → get_or bs n false ≡ false → set (set bs n true) n false ≡ bs
set-set_same [] n e = refl
set-set_same (b ∷ bs) zero e = ap (λ c. c ∷ bs) (sym e)
set-set_same (b ∷ bs) (suc n) e = ap (λ cs. b ∷ cs) (set-set_same bs n e)

-- A call of `sys_unblock` that succeeds undoes one of `sys_block` for the same number: every call then
-- comes to what it does where the flag was never set.
pub sys_unblock-syscall :
    (n : ℕ) (blocked : List Bool) (path : Option (List ℕ)) (m : ℤ)
    → n ≢ sys_fork
    → n ≢ sys_exit
    → n < length blocked
    → get_or blocked n false ≡ false
    → let undone = sys_unblock (some (pos n)) (sys_block (some (pos n)) blocked).0 in
      (undone.1 ≡ true) × (syscall m path undone.0 ≡ syscall m path blocked)
unfolding sys_unblock unblock_actual
sys_unblock-syscall n blocked path m nf ne lt off =
    let long : length (set blocked n true) ≡ length blocked = length-set blocked n true in
    let fits : leb (length (set blocked n true)) n ≡ false = ground arith in
    rw (sys_block_lem n blocked nf ne lt, fits, set-set_same blocked n off) (refl, refl)

-- One call of a process that changes its flags: it runs only where `syscall` lets it.
pub data Step (blocked : List Bool) : List Bool → Type 0 where
  blocks :
      (id : Option ℤ)
      → syscall (pos sys_block_number) none blocked ≡ runs sys_block_number
      → Step blocked (sys_block id blocked).0
  unblocks :
      (id : Option ℤ)
      → syscall (pos sys_unblock_number) none blocked ≡ runs sys_unblock_number
      → Step blocked (sys_unblock id blocked).0

pub data Reach (blocked : List Bool) : List Bool → Type 0 where
  here : Reach blocked blocked
  next : {b c : List Bool} → Reach blocked b → Step b c → Reach blocked c

-- The flag of `unblock` itself is set.
abbrev pub IsLocked : List Bool → Type 0
IsLocked blocked =
    (sys_unblock_number < length blocked) × (get_or blocked sys_unblock_number false ≡ true)

sys_block-IsLocked :
    (id : Option ℤ) (blocked : List Bool) → IsLocked blocked → IsLocked (sys_block id blocked).0
unfolding sys_block block_actual
sys_block-IsLocked none blocked h = h
sys_block-IsLocked (some (negsuc n)) blocked h = h
sys_block-IsLocked (some (pos n)) blocked (long, on) =
    let kept = get_or-set_cases blocked n sys_unblock_number true false in
    ground (arith, long, on, kept, length-set blocked n true)

-- A process that has blocked the call unblock never gets it back: through all block and unblock
-- calls that it can make, unblock stays refused.
pub Reach-IsLocked : {b c : List Bool} → IsLocked b → Reach b c → IsLocked c
unfolding syscall
Reach-IsLocked h here = h
Reach-IsLocked h (next {b} r (blocks id ok)) = sys_block-IsLocked id b (Reach-IsLocked h r)
Reach-IsLocked h (next {b} r (unblocks id ok)) =
    let (long, on) = Reach-IsLocked h r in absurd (ground (arith, long, on, ok))
