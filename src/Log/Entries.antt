-- ===== src/Log/Entries.antt =====
-- The search and the entry that `log_write` of log.c makes in the header.
use col.Base.{
  some, subst, ◌-◌, ◌∙◌, ==_iff, Bool-cases, List, ap, arith, get_or, get_or-set_ne,
  get_or-set_self, inl, inr, length, suc, sym, zero, ℕ, ◌+◌, ◌<◌, ◌==◌, ◌≡◌, ◌≢◌, ◌≤◌, ◌⊎◌,
}
use col.Log.{Block, Fs, bread, logsize, home, find_entry, add_entry, log_write}
use col.Log.Disk.{update_same, update_ne}
use col.Log.Commit.{IsReady}

-- Where the search of `log_write` stops.
find_entry_cases :
    (k i : ℕ) (block : List ℕ) (b : ℕ)
    → let j = find_entry k i block b in
      ((j < i + k) × (get_or block j 0 ≡ b))
      ⊎ ((j ≡ i + k) × ((m : ℕ) → i ≤ m → m < i + k → get_or block m 0 ≢ b))
unfolding find_entry
find_entry_cases zero i block b = inr (omega arith, λ m lo hi. absurd (omega arith))
find_entry_cases (suc k) i block b = elim (Bool-cases (get_or block i 0 == b)) [
  | inl e ↦ rw e (inl (omega arith, (==_iff _ _).0 e))
  | inr e ↦ rw e (elim (find_entry_cases k (i + 1) block b) [
    | inl (lt, hit) ↦ inl (omega arith, hit)
    | inr (at, miss) ↦ inr (
      omega arith,
      λ m lo hi q. elim (Bool-cases (m == i)) [
        | inl same ↦ ground (arith, ap (λ j. get_or block j 0) ((==_iff m i).0 same))
        | inr other ↦ miss m (ground arith) (omega arith) q
      ],
    )
  ])
]

-- After the entry is made, block `b` has index `j`, and the other entries are as before.
home_after :
    (s : Fs) (b : ℕ) (w : Block) (m : ℕ)
    → m ≢ find_entry s.n 0 s.block b
    → home (add_entry s b w) m ≡ home s m
unfolding add_entry
home_after s b w m ne = get_or-set_ne s.block (find_entry s.n 0 s.block b) m b 0 (λ e. ne (sym e))

home_self :
    (s : Fs) (b : ℕ) (w : Block)
    → find_entry s.n 0 s.block b < length s.block
    → home (add_entry s b w) (find_entry s.n 0 s.block b) ≡ b
unfolding add_entry
home_self s b w lt = get_or-set_self s.block (find_entry s.n 0 s.block b) b 0 lt

n_old : (s : Fs) (b : ℕ) (w : Block) → find_entry s.n 0 s.block b < s.n → (add_entry s b w).n ≡ s.n
unfolding add_entry
n_old s b w lt = ground arith

n_new :
    (s : Fs) (b : ℕ) (w : Block) → find_entry s.n 0 s.block b ≡ s.n → (add_entry s b w).n ≡ s.n + 1
unfolding add_entry
n_new s b w e = ground arith

-- What `add_entry` makes of the entries: block `b` was there and they stay, or it is the new last one.
pub record Added (s : Fs) (b : ℕ) (s' : Fs) : Type 0 where
  pub at : ℕ
  pub at_lt : at < s'.n
  pub at_home : home s' at ≡ b
  pub others : (m : ℕ) → m ≢ at → home s' m ≡ home s m
  pub cases :
      ((s'.n ≡ s.n) × (home s at ≡ b))
      ⊎ ((s'.n ≡ s.n + 1) × (at ≡ s.n) × ((m : ℕ) → m < s.n → home s m ≢ b))

pub add_entry-Added :
    (s : Fs) (b : ℕ) (w : Block) → s.n < length s.block → Added s b (add_entry s b w)
add_entry-Added s b w room = elim (find_entry_cases s.n 0 s.block b) [
  | inl (lt, hit) ↦
      let j : find_entry s.n 0 s.block b < s.n = omega arith in
      record {
        at = find_entry s.n 0 s.block b;
        at_lt = omega (arith, n_old s b w j);
        at_home = home_self s b w (omega arith);
        others = home_after s b w;
        cases = inl (n_old s b w j, hit);
      }
  | inr (end, miss) ↦
      let j : find_entry s.n 0 s.block b ≡ s.n = omega arith in
      record {
        at = find_entry s.n 0 s.block b;
        at_lt = omega (arith, n_new s b w j);
        at_home = home_self s b w (omega arith);
        others = home_after s b w;
        cases = inr (n_new s b w j, j, λ m lt. miss m (omega arith) (omega arith));
      }
]

-- Every entry afterwards is the new one, or one from before.
pub entry_cases :
    (s s' : Fs) (b i : ℕ) (a : Added s b s')
    → i < s'.n
    → ((i ≡ a.at) × (home s' i ≡ b)) ⊎ ((i ≢ a.at) × (i < s.n) × (home s' i ≡ home s i))
entry_cases s s' b i a lt = elim (Bool-cases (i == a.at)) [
  | inl e ↦ let same = (==_iff i a.at).0 e in inl (same, ap (home s') same ∙ a.at_home)
  | inr e ↦
      let ne : i ≢ a.at = ground arith in
      inr (
        ne,
        elim a.cases [ inl (n_eq, _) ↦ omega arith | inr (n_eq, last, _) ↦ omega arith ],
        a.others i ne,
      )
]

-- An entry from before is not for block `b`, unless it is the one that was found.
entry-ne : (s s' : Fs) (b i : ℕ) (a : Added s b s') → IsReady s → i < s.n → i ≢ a.at → home s i ≢ b
entry-ne s s' b i a r lt ne q = elim a.cases [
  | inl (n_eq, hit) ↦ ne (r.distinct i a.at lt (subst (λ m. a.at < m) n_eq a.at_lt) (q ∙ sym hit))
  | inr (n_eq, last, miss) ↦ miss i lt q
]

distinct_after :
    (s s' : Fs) (b : ℕ) (a : Added s b s')
    → IsReady s
    → (i j : ℕ) → i < s'.n
    → j < s'.n
    → home s' i ≡ home s' j
    → i ≡ j
distinct_after s s' b a r i j hi hj e = elim (entry_cases s s' b i a hi) [
  | inl (ei, bi) ↦ elim (entry_cases s s' b j a hj) [
    | inl (ej, bj) ↦ ei ∙ sym ej
    | inr (nj, lj, oj) ↦ absurd (entry-ne s s' b j a r lj nj (sym oj ∙ sym e ∙ bi))
  ]
  | inr (ni, li, oi) ↦ elim (entry_cases s s' b j a hj) [
    | inl (ej, bj) ↦ absurd (entry-ne s s' b i a r li ni (sym oi ∙ e ∙ bj))
    | inr (nj, lj, oj) ↦ r.distinct i j li lj (sym oi ∙ e ∙ oj)
  ]
]

outside_after :
    (s s' : Fs) (b : ℕ) (a : Added s b s')
    → IsReady s
    → (b < s.start) ⊎ (s.start + s.size ≤ b)
    → (i : ℕ) → i < s'.n
    → (home s' i < s.start) ⊎ (s.start + s.size ≤ home s' i)
outside_after s s' b a r out i hi = elim (entry_cases s s' b i a hi) [
  | inl (ei, bi) ↦ subst (λ x. (x < s.start) ⊎ (s.start + s.size ≤ x)) (sym bi) out
  | inr (ni, li, oi) ↦ subst (λ x. (x < s.start) ⊎ (s.start + s.size ≤ x)) (sym oi) (r.outside i li)
]

-- A block that has no entry afterwards had none before.
miss_before :
    (s s' : Fs) (b x : ℕ) (a : Added s b s')
    → ((i : ℕ) → i < s'.n → home s' i ≢ x)
    → (i : ℕ) → i < s.n
    → home s i ≢ x
miss_before s s' b x a miss i lt q = elim (Bool-cases (i == a.at)) [
  | inr e ↦
      let ne : i ≢ a.at = ground arith in
      miss i (elim a.cases [ inl (n_eq, _) ↦ omega arith | inr (n_eq, last, _) ↦ omega arith ])
        (a.others i ne ∙ q)
  | inl e ↦
      let same = (==_iff i a.at).0 e in
      elim a.cases [
        | inl (n_eq, hit) ↦ miss a.at a.at_lt (a.at_home ∙ sym hit ∙ ap (home s) (sym same) ∙ q)
        | inr (n_eq, last, _) ↦ omega arith
      ]
]

add_entry-IsReady :
    (s : Fs) (b : ℕ) (w : Block)
    → IsReady s
    → Added s b (add_entry s b w)
    → s.n < logsize
    → s.n < s.size - 1
    → (b < s.start) ⊎ (s.start + s.size ≤ b)
    → IsReady (add_entry s b w) × (bread (add_entry s b w) b ≡ w)
unfolding add_entry
add_entry-IsReady s b w r a small fits out = (
  record {
    small = ground (arith, a.cases);
    fits = ground (arith, a.cases);
    outside = outside_after s _ b a r out;
    distinct = distinct_after s _ b a r;
    unpinned = λ x lo hi. update_ne s.cache b (some w) x (λ e. ground arith) ∙ r.unpinned x lo hi;
    pinned = λ x miss.
        update_ne s.cache b (some w) x (λ e. miss a.at a.at_lt (a.at_home ∙ sym e))
        ∙ r.pinned x (miss_before s _ b x a miss);
    long = r.long;
    empty = r.empty;
  },
  rw (update_same s.cache b (some w), bread),
)

-- A call of `log_write` that succeeds, for a block outside the log, keeps the transaction ready to be
-- committed: its blocks stay distinct and outside the log, they fit in it, and they alone are
-- pinned. The block then reads as written.
pub log_write-IsReady :
    (s s' : Fs) (b : ℕ) (w : Block)
    → IsReady s
    → length s.block ≡ logsize
    → (b < s.start) ⊎ (s.start + s.size ≤ b)
    → log_write s b w ≡ some s'
    → IsReady s' × (bread s' b ≡ w)
unfolding log_write
log_write-IsReady s s' b w r long out e =
    let guards : (s.n < logsize) × (s.n < s.size - 1) × (s' ≡ add_entry s b w) = ground arith in
    subst (λ u. IsReady u × (bread u b ≡ w)) (sym guards.2)
      (add_entry-IsReady s b w r (add_entry-Added s b w (omega (arith, guards, long))) guards.0
        guards.1 out)
