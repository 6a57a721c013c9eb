-- ===== src/Cache.antt =====
-- The buffer cache of xv6-public_2/bio.c. The list of all buffers stands for the chain from
-- `bcache.head.next` on, most recently used first; `at` is the address of a buffer. The sleeping lock
-- that a caller holds is left out: a function stands for the stretch under `bcache.lock`.
pub mod Unique
pub mod Victim
mod Tests
use col.Base.{
  Bool, List, Option, [], count_up, false, if◌then◌else◌, none, not, replicate, some, ℕ, ◌&&◌, ◌+◌,
  ◌-◌, ◌==◌, ◌∷◌,
}

-- `struct buf`
pub record Buf : Type 0 where
  pub at : ℕ
  pub dev : ℕ
  pub blockno : ℕ
  pub valid : Bool
  pub dirty : Bool
  pub refcnt : ℕ
  pub bytes : List ℕ

abbrev pub nbuf : ℕ
nbuf = 30

abbrev pub zeroed : ℕ → Buf
zeroed i = record {
  at = i;
  dev = 0;
  blockno = 0;
  valid = false;
  dirty = false;
  refcnt = 0;
  bytes = replicate 512 0;
}

unfoldable pub binit : List Buf
binit = count_up nbuf 0 (λ i bs. zeroed i ∷ bs) []

abbrev pub is_hit : ℕ → ℕ → Buf → Bool
is_hit dev blockno b = b.dev == dev && b.blockno == blockno

abbrev pub refer : Buf → Buf
refer b = record b { refcnt = b.refcnt + 1 }

-- Goes on behind buffer `b`.
abbrev pub behind : Buf → Option (ℕ × List Buf) → Option (ℕ × List Buf)
behind b none = none
behind b (some (a, bs)) = some (a, b ∷ bs)

-- The loop for a block that is cached: the buffer's address, and the list afterwards.
unfoldable pub use_cached : ℕ → ℕ → List Buf → Option (ℕ × List Buf)
use_cached dev blockno [] = none
use_cached dev blockno (b ∷ bs) =
    let rest = use_cached dev blockno bs in
    if is_hit dev blockno b then some (b.at, refer b ∷ bs) else behind b rest

abbrev pub can_recycle : Buf → Bool
can_recycle b = b.refcnt == 0 && not b.dirty

abbrev pub renew : ℕ → ℕ → Buf → Buf
renew dev blockno b = record b {
  dev = dev;
  blockno = blockno;
  valid = false;
  dirty = false;
  refcnt = 1;
}

-- What a step of the loop from the tail does with `b` when it has not ended behind `b`.
abbrev pub recycle_here : ℕ → ℕ → Buf → List Buf → Option (ℕ × List Buf)
recycle_here dev blockno b bs =
    if can_recycle b then some (b.at, renew dev blockno b ∷ bs) else none

abbrev pub or_else {ℓ} : {A : Type ℓ} → Option A → Option A → Option A
or_else (some x) o = some x
or_else none o = o

-- The loop from the tail.
unfoldable pub recycle : ℕ → ℕ → List Buf → Option (ℕ × List Buf)
recycle dev blockno [] = none
recycle dev blockno (b ∷ bs) =
    or_else (behind b (recycle dev blockno bs)) (recycle_here dev blockno b bs)

-- `none` is the panic.
unfoldable pub bget : ℕ → ℕ → List Buf → Option (ℕ × List Buf)
bget dev blockno bs = or_else (use_cached dev blockno bs) (recycle dev blockno bs)

abbrev pub unrefer : Buf → Buf
unrefer b = record b { refcnt = b.refcnt - 1 }

-- The buffer at address `a`, and the others.
pub unlink : ℕ → List Buf → Option (Buf × List Buf)
unlink a [] = none
unlink a (b ∷ bs) =
    let rest = unlink a bs in
    if b.at == a then some (b, bs) else elim rest [ none ↦ none | some (x, xs) ↦ some (x, b ∷ xs) ]

-- One reference less to the buffer at address `a`.
pub lower : ℕ → List Buf → List Buf
lower a [] = []
lower a (b ∷ bs) = let rest = lower a bs in if b.at == a then unrefer b ∷ bs else b ∷ rest

unfoldable pub brelse : ℕ → List Buf → List Buf
brelse a bs = elim (unlink a bs) [
  | none ↦ bs
  | some (b, others) ↦ if b.refcnt == 1 then unrefer b ∷ others else lower a bs
]
