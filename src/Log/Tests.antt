-- ===== src/Log/Tests.antt =====
-- The log's theorems at one transaction, which writes block 40.
use col.Base.{
  [], arith, get_or, inl, inr, none, refl, replicate, some, suc, zero, ℕ, ◌+◌, ◌<◌, ◌↔◌, ◌∷◌, ◌≡◌,
}
use col.Log.{Block, Fs, update, commit, recover_from_log, log_write}
use col.Log.Disk.{All, Plan, IsPlan, IsCommitted, IsDone}
use col.Log.Recovery.{boot, recover-IsDone}
use col.Log.Commit.{IsReady, Atomic, commit-Atomic}
use col.Log.Space.{HasRoom, log_write-eq-none}

abbrev zeros : Block
zeros = replicate 128 0

abbrev ones : Block
ones = replicate 128 1

-- A log of `size` blocks from block 2 on, with nothing in it.
abbrev idle : ℕ → Fs
idle size = record (boot 2 size (λ x. zeros)) { outstanding = 1 }

-- Block 40 is in the transaction.
abbrev busy : ℕ → Fs
busy size = record (idle size) {
  cache = update (λ x. none) 40 (some ones);
  n = 1;
  block = 40 ∷ replicate 29 0;
}

busy_entry : (i : ℕ) → i < 1 → get_or (busy 31).block i 0 ≡ 40
busy_entry zero l = refl
busy_entry (suc i) l = absurd (omega arith)

busy-IsReady : IsReady (busy 31)
busy-IsReady = record {
  small = omega arith;
  fits = omega arith;
  outside = λ i l. inr (omega (arith, busy_entry i l));
  distinct = λ i j l m e. omega arith;
  unpinned = λ x lo hi. ground arith;
  pinned = λ x miss. ground (arith, miss 0);
  long = refl;
  empty = refl;
}

commit-Atomic_example : All (Atomic (busy 31)) (commit (busy 31)).past
commit-Atomic_example = commit-Atomic (busy 31) busy-IsReady (omega arith) refl

-- The transaction of `busy` as a plan.
abbrev one_block : Plan
one_block = record {
  start = 2;
  size = 31;
  n = 1;
  t = λ i. 40;
  old = λ x. zeros;
  new = update (λ x. zeros) 40 ones;
}

one_block-IsPlan : IsPlan one_block
one_block-IsPlan = record {
  small = omega arith;
  fits = omega arith;
  outside = λ i l. inr (omega arith);
  distinct = λ i j l m e. omega arith;
  same = λ x u. ground (arith, u 0);
}

abbrev logged_disk : ℕ → Block
logged_disk = update (update (λ x. zeros) 3 ones) 2 (1 ∷ 40 ∷ replicate 126 0)

logged_header : (i : ℕ) → i < 1 → get_or (logged_disk 2) (i + 1) 0 ≡ 40
logged_header zero l = refl
logged_header (suc i) l = absurd (omega arith)

logged_data : (i : ℕ) → i < 1 → logged_disk (2 + i + 1) ≡ ones
logged_data zero l = refl
logged_data (suc i) l = absurd (omega arith)

logged-IsCommitted : IsCommitted one_block logged_disk
logged-IsCommitted = record {
  head = record { long = refl; count = refl; entries = logged_header };
  logged = logged_data;
  rest = λ x out u. ground arith;
}

recover-IsDone_example : IsDone one_block (recover_from_log (boot 2 31 logged_disk)).disk
recover-IsDone_example =
    recover-IsDone one_block one_block-IsPlan logged_disk (inl logged-IsCommitted)

-- 29 blocks are in the log of 30 blocks, and one call is left to the last operation.
abbrev nearly_full : Fs
nearly_full = record (idle 30) { n = 29 }

nearly_full-HasRoom : HasRoom nearly_full (1 ∷ [])
nearly_full-HasRoom = record { ops = refl; within = (omega arith, tt); room = omega arith }

log_write-eq-none_example : (log_write nearly_full 40 ones ≡ none) ↔ (nearly_full.n ≡ 29)
log_write-eq-none_example = log_write-eq-none nearly_full 40 ones [] [] 0 refl nearly_full-HasRoom
