-- ===== src/Lock/Moves.antt =====
-- What a spinlock and the cpus know of each other, and that every move keeps it.
use col.Base.{Bool, arith, false, some, true, ℕ, ◌+◌, ◌≡◌, ◌≢◌, refl, sym, inl, inr, ◌⊎◌}
use col.Lock.{
  Call, Cpu, Move, Pc, Spinlock, acquires, acquires_held, acquiring, answered, cleared, clears,
  compares, comparing, frees, freed, granted, inside, leave_panics, leaves, outside, panicked,
  pop_panics, popcli, pops, pushcli, reads_free, reads_locked, records, releases, releases_free,
  releasing, spinning, spins, testing, wins, won,
}
use col.Lock.Nesting.{IsQuiet}

-- From the xchg that answers 0 to the store of 0.
abbrev pub owns : Pc → Bool
owns outside = false
owns (testing k owner) = owner
owns (comparing k owner) = owner
owns (answered k owner r) = owner
owns spinning = false
owns won = true
owns inside = true
owns granted = true
owns cleared = true
owns freed = false
owns (panicked k owner) = owner

-- Where `lk->cpu` names the owner.
abbrev pub is_named : Pc → Bool
is_named won = false
is_named cleared = false
is_named p = owns p

-- The cpu that calls `acquire` holds the lock already, or the one that calls `release` does not.
abbrev pub IsMisuse : Call → Bool → Type 0
IsMisuse acquiring owner = owner ≡ true
IsMisuse releasing owner = owner ≡ false

-- The answer of `holding` is right, and a panic has a reason.
abbrev pub IsTold : Pc → Type 0
IsTold (answered k owner r) = r ≡ owner
IsTold (panicked k owner) = IsMisuse k owner
IsTold p = Unit

-- The `pushcli`s of this lock that are open; a cpu that panicked no longer counts.
abbrev pub from_owner : Bool → ℕ
from_owner true = 1
from_owner false = 0

abbrev pub from_call : Call → ℕ
from_call acquiring = 2
from_call releasing = 1

abbrev pub depth : Pc → ℕ
depth outside = 0
depth (testing k owner) = from_call k + from_owner owner
depth (comparing k owner) = from_call k + from_owner owner
depth (answered k owner r) = from_call k + from_owner owner
depth p = 1

abbrev pub IsCounted : Cpu → ℕ → Pc → Type 0
IsCounted c others (panicked k owner) = Unit
IsCounted c others p = (c.ncli ≡ others + depth p) × IsQuiet c

-- What one cpu keeps by itself.
abbrev pub Local : ℕ → Cpu → Pc → Type 0
Local others c p = IsCounted c others p × IsTold p

-- What a cpu and the lock know of each other.
abbrev pub Agrees : Spinlock → ℕ → Pc → Type 0
Agrees lk i p =
    (owns p ≡ true → lk.locked ≢ 0)
    × (is_named p ≡ true → lk.cpu ≡ some i)
    × (lk.cpu ≡ some i → is_named p ≡ true)

module _ {i : ℕ} {lk : Spinlock} {c : Cpu} where
  pub Move-Local :
      (others : ℕ) {lk' : Spinlock} {c' : Cpu} {p p' : Pc}
      → Move i lk c p lk' c' p'
      → Agrees lk i p
      → Local others c p
      → Local others c' p'
  unfolding pushcli popcli
  Move-Local n acquires ag l = ground (arith, l)
  Move-Local n acquires_held ag l = ground (arith, l)
  Move-Local n releases ag l = ground (arith, l)
  Move-Local n releases_free ag l = ground (arith, l)
  Move-Local n (reads_free {owner = owner} e) ag l = ground (arith, l, ag)
  Move-Local n (reads_locked e) ag l = l
  Move-Local n compares ag l = ground (arith, l, ag)
  Move-Local n (pops {k = acquiring} {owner = true} {r = true} e) ag l = (tt, refl)
  Move-Local n (pops {k = acquiring} {owner = true} {r = false} e) ag l = cc
  Move-Local n (pops {k = acquiring} {owner = false} {r = true} e) ag l = cc
  Move-Local n (pops {k = acquiring} {owner = false} {r = false} e) ag l = ground (arith, l)
  Move-Local n (pops {k = releasing} {owner = true} {r = true} e) ag l = ground (arith, l)
  Move-Local n (pops {k = releasing} {owner = true} {r = false} e) ag l = cc
  Move-Local n (pops {k = releasing} {owner = false} {r = true} e) ag l = cc
  Move-Local n (pops {k = releasing} {owner = false} {r = false} e) ag l = (tt, refl)
  Move-Local n (pop_panics {k = acquiring} e) ag l = ground (arith, l)
  Move-Local n (pop_panics {k = releasing} e) ag l = ground (arith, l)
  Move-Local n (spins e) ag l = l
  Move-Local n (wins e) ag l = l
  Move-Local n records ag l = l
  Move-Local n clears ag l = l
  Move-Local n frees ag l = l
  Move-Local n (leaves e) ag l = ground (arith, l)
  Move-Local n (leave_panics e) ag l = ground (arith, l)

  -- The cpu that moves still agrees with the lock.
  pub Move-Agrees :
      {lk' : Spinlock} {c' : Cpu} {p p' : Pc}
      → Move i lk c p lk' c' p'
      → IsTold p
      → Agrees lk i p
      → Agrees lk' i p'
  Move-Agrees acquires told ag = ag
  Move-Agrees acquires_held told ag = ag
  Move-Agrees releases told ag = ag
  Move-Agrees releases_free told ag = ag
  Move-Agrees (reads_free e) told ag = ag
  Move-Agrees (reads_locked e) told ag = ag
  Move-Agrees compares told ag = ag
  Move-Agrees (pops {k = acquiring} {r = true} e) told ag = ag
  Move-Agrees (pops {k = acquiring} {r = false} e) told ag = ground (arith, told, ag)
  Move-Agrees (pops {k = releasing} {r = true} e) told ag = ground (arith, told, ag)
  Move-Agrees (pops {k = releasing} {r = false} e) told ag = ag
  Move-Agrees (pop_panics e) told ag = ag
  Move-Agrees (spins e) told ag = ground (arith, ag)
  Move-Agrees (wins e) told ag = ground (arith, ag)
  Move-Agrees records told ag = ground (arith, ag)
  Move-Agrees clears told ag = ground (arith, ag)
  Move-Agrees frees told ag = ground (arith, ag)
  Move-Agrees (leaves e) told ag = ground (arith, ag)
  Move-Agrees (leave_panics e) told ag = ground (arith, ag)

  -- Another cpu does too, if it is not an owner while the one that moves is.
  pub Move-Agrees_other :
      {lk' : Spinlock} {c' : Cpu} {p p' : Pc} (j : ℕ) (q : Pc)
      → Move i lk c p lk' c' p'
      → i ≢ j
      → (owns p ≡ true → owns q ≡ true → i ≡ j)
      → (is_named q ≡ true → owns q ≡ true)
      → Agrees lk j q
      → Agrees lk' j q
  Move-Agrees_other j q (spins e) ne alone named ag = ground (arith, ag)
  Move-Agrees_other j q (wins e) ne alone named ag = ground (arith, ag)
  Move-Agrees_other j q records ne alone named ag = ground (arith, ag)
  Move-Agrees_other j q clears ne alone named ag = ground (arith, ag)
  Move-Agrees_other j q frees ne alone named ag = ground (arith, ag)
  Move-Agrees_other j q mv ne alone named ag = ag

  -- Only the xchg on a free lock makes an owner.
  pub Move-owns :
      {lk' : Spinlock} {c' : Cpu} {p p' : Pc}
      → Move i lk c p lk' c' p'
      → IsTold p
      → owns p' ≡ true
      → (owns p ≡ true) ⊎ (lk.locked ≡ 0)
  Move-owns (pops {k = acquiring} {r = true} e) told o = inl o
  Move-owns (pops {k = acquiring} {r = false} e) told o = cc
  Move-owns (pops {k = releasing} {r = true} e) told o = inl (sym told)
  Move-owns (pops {k = releasing} {r = false} e) told o = inl o
  Move-owns (wins e) told o = inr e
  Move-owns mv told o = ground arith
