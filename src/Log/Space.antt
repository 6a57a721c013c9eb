-- ===== src/Log/Space.antt =====
-- Log space in log.c: what `begin_op` reserves and what the calls of `log_write` use of it.
use col.Base.{
  none, ◌∙◌, length-append, refl, List, [], arith, length, some, suc, ℕ, ◌*◌, ◌++◌, ◌+◌, ◌<◌, ◌↔◌,
  ◌∷◌, ◌≡◌, ◌≤◌,
}
use col.Log.{Block, Fs, logsize, maxopblocks, add_entry, log_write, begin_op}

abbrev pub sum : List ℕ → ℕ
sum [] = 0
sum (b ∷ bs) = b + sum bs

sum-append : (xs ys : List ℕ) → sum (xs ++ ys) ≡ sum xs + sum ys
sum-append [] ys = omega arith
sum-append (x ∷ xs) ys = omega (arith, sum-append xs ys)

abbrev pub AllWithin : List ℕ → Type 0
AllWithin [] = Unit {0}
AllWithin (b ∷ bs) = (b ≤ maxopblocks) × AllWithin bs

AllWithin-append : (xs ys : List ℕ) → AllWithin (xs ++ ys) ↔ (AllWithin xs × AllWithin ys)
AllWithin-append [] ys = ((λ h. (tt, h)), λ h. h.1)
AllWithin-append (x ∷ xs) ys =
    let e = AllWithin-append xs ys in
    ((λ h. ((h.0, (e.0 h.1).0), (e.0 h.1).1)), λ h. (h.0.0, e.1 (h.0.1, h.1)))

sum-le : (bs : List ℕ) → AllWithin bs → sum bs ≤ length bs * maxopblocks
sum-le [] h = omega arith
sum-le (b ∷ bs) h = omega (arith, sum-le bs h.1)

-- `budgets` has, for each operation under way, how many calls of `log_write` it has left. Together
-- with the blocks already in the transaction they fit in the header.
pub record HasRoom (s : Fs) (budgets : List ℕ) : Type 0 where
  pub ops : s.outstanding ≡ length budgets
  pub within : AllWithin budgets
  pub room : s.n + sum budgets ≤ logsize

-- When `begin_op` lets an operation start, its ten calls of `log_write` fit beside what the
-- operations under way may still need.
pub begin_op-HasRoom :
    (s s' : Fs) (bs : List ℕ) → HasRoom s bs → begin_op s ≡ some s' → HasRoom s' (maxopblocks ∷ bs)
unfolding begin_op
begin_op-HasRoom s s' bs h e = ground (arith, sum-le bs h.within)

n-add_entry : (s : Fs) (b : ℕ) (w : Block) → (add_entry s b w).n ≤ s.n + 1
unfolding add_entry
n-add_entry s b w = ground arith

outstanding-add_entry : (s : Fs) (b : ℕ) (w : Block) → (add_entry s b w).outstanding ≡ s.outstanding
unfolding add_entry
outstanding-add_entry s b w = refl

length-spend :
    (before after : List ℕ) (x y : ℕ) → length (before ++ x ∷ after) ≡ length (before ++ y ∷ after)
length-spend before after x y =
    omega (arith, length-append before (x ∷ after), length-append before (y ∷ after))

-- An operation with calls left can make one: `log_write` does not panic, in a log of more than
-- LOGSIZE blocks, and all operations keep their room.
pub log_write-HasRoom :
    (s : Fs) (b : ℕ) (w : Block) (before after : List ℕ) (left : ℕ)
    → logsize < s.size
    → HasRoom s (before ++ suc left ∷ after)
    → (log_write s b w ≡ some (add_entry s b w))
      × HasRoom (add_entry s b w) (before ++ left ∷ after)
unfolding log_write
log_write-HasRoom s b w before after left big h =
    let total = sum-append before (suc left ∷ after) in
    let left_total = sum-append before (left ∷ after) in
    let split = (AllWithin-append before (suc left ∷ after)).0 h.within in
    let some_op : 0 < s.outstanding =
      omega (arith, h.ops, h.room, length-append before (suc left ∷ after)) in
    let r = h.room in
    (
      ground arith,
      record {
        ops = outstanding-add_entry s b w ∙ h.ops ∙ length-spend before after (suc left) left;
        within = (AllWithin-append before (left ∷ after)).1 (split.0, (omega arith, split.1.1));
        room = omega (arith, n-add_entry s b w, total, left_total, h.room);
      },
    )

-- In the log that mkfs.c makes, LOGSIZE blocks with the header among them, an operation that keeps
-- within its reservation meets the panic exactly when 29 blocks are logged.
pub log_write-eq-none :
    (s : Fs) (b : ℕ) (w : Block) (before after : List ℕ) (left : ℕ)
    → s.size ≡ logsize
    → HasRoom s (before ++ suc left ∷ after)
    → (log_write s b w ≡ none) ↔ (s.n ≡ 29)
unfolding log_write
log_write-eq-none s b w before after left e h =
    let total = sum-append before (suc left ∷ after) in
    let some_op : 0 < s.outstanding =
      omega (arith, h.ops, length-append before (suc left ∷ after)) in
    let r = h.room in ((λ p. ground arith), (λ p. ground arith))
