-- ===== src/Pipe.antt =====
-- The pipes of xv6-public_2/pipe.c. The two counters are 32-bit words that wrap. A loop that sleeps
-- is modelled up to the sleep, which hands back what is left to do; it runs again from there when the
-- process wakes up. The lock is held throughout.
pub mod Window
pub mod Fifo
mod Tests
use col.Base.{
  Bool, List, [], false, get_or, if◌then◌else◌, not, set, suc, true, zero, ℕ, ◌%◌, ◌&&◌, ◌+◌, ◌==◌,
  ◌^◌, ◌||◌, ◌∷◌,
}

abbrev pub pipesize : ℕ
pipesize = 512

-- `uint` arithmetic.
abbrev pub u32 : ℕ → ℕ
u32 x = x % 2 ^ 32

-- The two sleep channels, `&p->nread` and `&p->nwrite`.
pub data Side : Type 0 where
  reader writer : Side

-- `struct pipe`, and the calls of `wakeup`, newest first.
pub record Pipe : Type 0 where
  pub buf : List ℕ
  pub nread : ℕ
  pub nwrite : ℕ
  pub readopen : Bool
  pub writeopen : Bool
  pub woken : List Side

abbrev pub wake : Side → Pipe → Pipe
wake s p = record p { woken = s ∷ p.woken }

-- `pipealloc` with a page whose bytes are `page`.
pub pipealloc : List ℕ → Pipe
pipealloc page = record {
  buf = page;
  nread = 0;
  nwrite = 0;
  readopen = true;
  writeopen = true;
  woken = [];
}

-- The pipe afterwards, and whether its page is freed.
pub pipeclose : Bool → Pipe → Pipe × Bool
pipeclose writable p =
    let q = record p {
      writeopen = if writable then false else p.writeopen;
      readopen = if writable then p.readopen else false;
      woken = (if writable then reader else writer) ∷ p.woken;
    } in
    (q, not q.readopen && not q.writeopen)

abbrev pub is_full : Pipe → Bool
is_full p = p.nwrite == u32 (p.nread + pipesize)

abbrev pub is_empty : Pipe → Bool
is_empty p = p.nread == p.nwrite

-- `p->data[p->nwrite++ % PIPESIZE] = addr[i]`
pub put : ℕ → Pipe → Pipe
put x p = record p { buf = set p.buf (p.nwrite % pipesize) x; nwrite = u32 (p.nwrite + 1) }

-- `p->data[p->nread++ % PIPESIZE]`
pub front : Pipe → ℕ
front p = get_or p.buf (p.nread % pipesize) 0

pub advance : Pipe → Pipe
advance p = record p { nread = u32 (p.nread + 1) }

-- How a stretch of `pipewrite` ends: all is written, -1, or a sleep with the bytes that are left.
pub data Written : Type 0 where
  wrote : Written
  broken : Written
  waits : List ℕ → Written

pub pipewrite : (killed : Bool) → Pipe → List ℕ → Pipe × Written
pipewrite killed p [] = (wake reader p, wrote)
pipewrite killed p (x ∷ xs) =
    let rest = pipewrite killed (put x p) xs in
    if is_full p
    then (if not p.readopen || killed then (p, broken) else (wake reader p, waits (x ∷ xs)))
    else rest

-- The copying loop of `piperead`, for at most `n` bytes.
pub copy_out : ℕ → Pipe → Pipe × List ℕ
copy_out zero p = (p, [])
copy_out (suc n) p =
    let (p', xs) = copy_out n (advance p) in if is_empty p then (p, []) else (p', front p ∷ xs)

-- How a stretch of `piperead` ends: with the bytes read, -1, or a sleep.
pub data Got : Type 0 where
  bytes : List ℕ → Got
  interrupted : Got
  sleeps : Got

pub piperead : (killed : Bool) → ℕ → Pipe → Pipe × Got
piperead killed n p =
    if is_empty p && p.writeopen
    then (if killed then (p, interrupted) else (p, sleeps))
    else (let (p', xs) = copy_out n p in (wake writer p', bytes xs))
