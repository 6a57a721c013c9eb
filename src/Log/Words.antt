-- ===== src/Log/Words.antt =====
-- The header block of log.c, as `write_head` writes it and `read_head` reads it.
use col.Base.{
  ==_iff, Bool-cases, List, arith, count_up-keeps, get_or, get_or-set_ne, get_or-set_self, inl, inr,
  length, length-set, refl, set, suc, ℕ, ◌+◌, ◌<◌, ◌==◌, ◌∙◌, ◌≡◌, ◌≤◌,
}
use col.Log.{Block, Fs, bread, read_entry, write_entry, header, read_head, logsize}

-- Entries `0 .. k` of a header block.
abbrev pub Holds : Block → ℕ → (ℕ → ℕ) → Type 0
Holds hb k t = (i : ℕ) → i < k → get_or hb (i + 1) 0 ≡ t i

-- A header block of the right length with `n` entries `t`.
pub record IsHeader (hb : Block) (n : ℕ) (t : ℕ → ℕ) : Type 0 where
  pub long : length hb ≡ 128
  pub count : get_or hb 0 0 ≡ n
  pub entries : Holds hb n t

write_entry-step :
    (n k : ℕ) (block : List ℕ) (hb : Block) (t : ℕ → ℕ)
    → get_or block k 0 ≡ t k
    → k < 127
    → (length hb ≡ 128) × (get_or hb 0 0 ≡ n) × Holds hb k t
    → (length (write_entry block k hb) ≡ 128)
      × (get_or (write_entry block k hb) 0 0 ≡ n)
      × Holds (write_entry block k hb) (suc k) t
write_entry-step n k block hb t e small (long, count, entries) = (
  length-set hb (k + 1) (get_or block k 0) ∙ long,
  get_or-set_ne hb (k + 1) 0 _ 0 (omega arith) ∙ count,
  each,
)
  where
    each : (i : ℕ) → i < suc k → get_or (write_entry block k hb) (i + 1) 0 ≡ t i
    each i h = elim (Bool-cases (i == k)) [
      | inl same ↦ rw ((==_iff i k).0 same) (get_or-set_self hb (k + 1) _ 0 (omega arith) ∙ e)
      | inr other ↦ get_or-set_ne hb (k + 1) (i + 1) _ 0 (ground arith) ∙ entries i (ground arith)
    ]

-- `write_head` writes the entries of the in-memory header.
pub header-IsHeader :
    (s : Fs) (t : ℕ → ℕ)
    → s.n ≤ logsize
    → length (bread s s.start) ≡ 128
    → ((i : ℕ) → i < s.n → get_or s.block i 0 ≡ t i)
    → IsHeader (header s) s.n t
unfolding header
header-IsHeader s t small long e =
    let (l, c, h) =
      count_up-keeps (λ k hb. (length hb ≡ 128) × (get_or hb 0 0 ≡ s.n) × Holds hb k t)
        (write_entry s.block) s.n 0 s.n (set (bread s s.start) 0 s.n) (omega arith)
        (λ k hb lt p. write_entry-step s.n k s.block hb t (e k lt) (omega arith) p)
        (
          length-set (bread s s.start) 0 s.n ∙ long,
          get_or-set_self (bread s s.start) 0 s.n 0 (omega arith),
          λ i h. absurd (omega arith),
        ) in
    record { long = l; count = c; entries = h }

read_entry-step :
    (k : ℕ) (hb : Block) (block : List ℕ) (t : ℕ → ℕ)
    → get_or hb (k + 1) 0 ≡ t k
    → k < logsize
    → (length block ≡ logsize) × ((i : ℕ) → i < k → get_or block i 0 ≡ t i)
    → (length (read_entry hb k block) ≡ logsize)
      × ((i : ℕ) → i < suc k → get_or (read_entry hb k block) i 0 ≡ t i)
read_entry-step k hb block t e small (long, entries) = (length-set block k _ ∙ long, each)
  where
    each : (i : ℕ) → i < suc k → get_or (read_entry hb k block) i 0 ≡ t i
    each i h = elim (Bool-cases (i == k)) [
      | inl same ↦ rw ((==_iff i k).0 same) (get_or-set_self block k _ 0 (omega arith) ∙ e)
      | inr other ↦ get_or-set_ne block k i _ 0 (ground arith) ∙ entries i (ground arith)
    ]

-- `read_head` finds the number of entries and the entries that the header block holds.
pub read_head-entries :
    (s : Fs) (n : ℕ) (t : ℕ → ℕ)
    → n ≤ logsize
    → length s.block ≡ logsize
    → IsHeader (bread s s.start) n t
    → ((read_head s).n ≡ n)
      × (length (read_head s).block ≡ logsize)
      × ((i : ℕ) → i < n → get_or (read_head s).block i 0 ≡ t i)
unfolding read_head
read_head-entries s n t small long h =
    let hb : Block = bread s s.start in
    let (l, e) =
      count_up-keeps
        (λ k block. (length block ≡ logsize) × ((i : ℕ) → i < k → get_or block i 0 ≡ t i))
        (read_entry hb) n 0 n s.block (omega arith)
        (λ k block lt p. read_entry-step k hb block t (h.entries k lt) (omega arith) p)
        (long, λ i h. absurd (omega arith)) in
    rw h.count (refl, l, e)

-- A header written from memory is read back unchanged: as many entries, and the same ones.
pub read_head-header :
    (s u : Fs)
    → s.n ≤ logsize
    → length (bread s s.start) ≡ 128
    → length u.block ≡ logsize
    → bread u u.start ≡ header s
    → ((read_head u).n ≡ s.n)
      × ((i : ℕ) → i < s.n → get_or (read_head u).block i 0 ≡ get_or s.block i 0)
read_head-header s u small long ulong e =
    let t : ℕ → ℕ = (λ i. get_or s.block i 0) in
    let (c, l, same) =
      read_head-entries u s.n t small ulong (rw e (header-IsHeader s t small long (λ i h. refl))) in
    (c, same)
