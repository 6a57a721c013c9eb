-- ===== src/Log/Disk.antt =====
-- The disks that a crash in log.c can leave while one transaction commits, and the loop of
-- `install_trans` on them.
use col.Base.{
  count_up, inr, ==_iff, inl, ap₂, ◌==◌, Bool-cases, Option, ap, count_up-keeps, subst, List, [],
  arith, get_or, none, suc, sym, ℕ, ◌+◌, ◌<◌, ◌∙◌, ◌∷◌, ◌≡◌, ◌≢◌, ◌≤◌, ◌⊎◌,
}
use col.Log.{Block, Fs, bread, bwrite, update, install_one, install_trans, logsize}
use col.Log.Words.{IsHeader}

pub update_same {ℓ} : {A : Type ℓ} (f : ℕ → A) (b : ℕ) (v : A) → update f b v b ≡ v
update_same f b v = ground arith

pub update_ne {ℓ} : {A : Type ℓ} (f : ℕ → A) (b : ℕ) (v : A) (x : ℕ) → x ≢ b → update f b v x ≡ f x
update_ne f b v x h = ground arith

pub bread_clean : (s : Fs) (b : ℕ) → s.cache b ≡ none → bread s b ≡ s.disk b
bread_clean s b e = rw (e, bread)

abbrev pub All : ((ℕ → Block) → Type 0) → List (ℕ → Block) → Type 0
All P [] = Unit {0}
All P (d ∷ ds) = P d × All P ds

-- One transaction: the log's blocks, the `n` blocks `t i` that it writes, and the contents of all
-- blocks before and after it.
pub record Plan : Type 0 where
  pub start : ℕ
  pub size : ℕ
  pub n : ℕ
  pub t : ℕ → ℕ
  pub old : ℕ → Block
  pub new : ℕ → Block

abbrev pub Outside : Plan → ℕ → Type 0
Outside p x = (x < p.start) ⊎ (p.start + p.size ≤ x)

abbrev pub Untouched : Plan → ℕ → Type 0
Untouched p x = (i : ℕ) → i < p.n → p.t i ≢ x

-- The blocks are distinct, stand outside the log and fit in it; the others do not change.
pub record IsPlan (p : Plan) : Type 0 where
  pub small : p.n ≤ logsize
  pub fits : p.n < p.size
  pub outside : (i : ℕ) → i < p.n → Outside p (p.t i)
  pub distinct : (i j : ℕ) → i < p.n → j < p.n → p.t i ≡ p.t j → i ≡ j
  pub same : (x : ℕ) → Untouched p x → p.new x ≡ p.old x

-- No transaction in the log, and the old contents.
pub record IsOld (p : Plan) (d : ℕ → Block) : Type 0 where
  pub head : IsHeader (d p.start) 0 p.t
  pub data_old : (x : ℕ) → Outside p x → d x ≡ p.old x

-- The whole transaction in the log; its home blocks hold anything.
pub record IsCommitted (p : Plan) (d : ℕ → Block) : Type 0 where
  pub head : IsHeader (d p.start) p.n p.t
  pub logged : (i : ℕ) → i < p.n → d (p.start + i + 1) ≡ p.new (p.t i)
  pub rest : (x : ℕ) → Outside p x → Untouched p x → d x ≡ p.old x

-- No transaction in the log, and the new contents.
pub record IsDone (p : Plan) (d : ℕ → Block) : Type 0 where
  pub head : IsHeader (d p.start) 0 p.t
  pub data_new : (x : ℕ) → Outside p x → d x ≡ p.new x

abbrev pub IsSafe : Plan → (ℕ → Block) → Type 0
IsSafe p d = (IsOld p d) ⊎ (IsCommitted p d) ⊎ (IsDone p d)

-- The in-memory header says what the plan says, and no log block is pinned.
pub record Follows (p : Plan) (s : Fs) : Type 0 where
  pub start_eq : s.start ≡ p.start
  pub n_eq : s.n ≡ p.n
  pub entries : (i : ℕ) → i < p.n → get_or s.block i 0 ≡ p.t i
  pub unpinned : (x : ℕ) → p.start ≤ x → x < p.start + p.size → s.cache x ≡ none
  pub pinned : (x : ℕ) → Untouched p x → s.cache x ≡ none

-- The loop of `install_trans` before round `k`.
pub record Installing (p : Plan) (Q : (ℕ → Block) → Type 0) (k : ℕ) (s : Fs) : Type 0 where
  pub follows : Follows p s
  pub committed : IsCommitted p s.disk
  pub installed : (i : ℕ) → i < k → s.disk (p.t i) ≡ p.new (p.t i)
  pub clean : (i : ℕ) → i < k → s.cache (p.t i) ≡ none
  pub past_Q : All Q s.past

pub update-none : (c : ℕ → Option Block) (b x : ℕ) → c x ≡ none → update c b none x ≡ none
update-none c b x e = ground arith

module _ (p : Plan) (v : IsPlan p) where
  pub target-ne : (k x : ℕ) → k < p.n → p.start ≤ x → x < p.start + p.size → x ≢ p.t k
  target-ne k x lt lo hi e = ground (arith, v.outside k lt)

  pub start-ne : (k : ℕ) → k < p.n → p.start ≢ p.t k
  start-ne k lt = let f = v.fits in target-ne k p.start lt (omega arith) (omega arith)

  pub logged-ne : (k i : ℕ) → k < p.n → i < p.n → p.start + i + 1 ≢ p.t k
  logged-ne k i lt h =
      let f = v.fits in target-ne k (p.start + i + 1) lt (omega arith) (omega arith)

  IsCommitted-update :
      (d : ℕ → Block) (k : ℕ) (b : Block)
      → k < p.n
      → IsCommitted p d
      → IsCommitted p (update d (p.t k) b)
  IsCommitted-update d k b lt c = record {
    head =
        subst (λ hb. IsHeader hb p.n p.t) (sym (update_ne d (p.t k) b p.start (start-ne k lt)))
          c.head;
    logged = λ i h. update_ne d (p.t k) b (p.start + i + 1) (logged-ne k i lt h) ∙ c.logged i h;
    rest = λ x o u. update_ne d (p.t k) b x (λ e. u k lt (sym e)) ∙ c.rest x o u;
  }

  pub Follows-bwrite : (s : Fs) (b : ℕ) (w : Block) → Follows p s → Follows p (bwrite s b w)
  Follows-bwrite s b w f = record {
    start_eq = f.start_eq;
    n_eq = f.n_eq;
    entries = f.entries;
    unpinned = λ x lo hi. update-none s.cache b x (f.unpinned x lo hi);
    pinned = λ x u. update-none s.cache b x (f.pinned x u);
  }

  install_one_lem :
      (k : ℕ) (s : Fs)
      → k < p.n
      → Follows p s
      → IsCommitted p s.disk
      → install_one k s ≡ bwrite s (p.t k) (p.new (p.t k))
  install_one_lem k s lt f c =
      let size = v.fits in
      let clean = bread_clean s (p.start + k + 1) (f.unpinned _ (omega arith) (omega arith)) in
      ap₂ (bwrite s) (f.entries k lt)
        (ap (λ x. bread s (x + k + 1)) f.start_eq ∙ clean ∙ c.logged k lt)

  install_one-Installing :
      (Q : (ℕ → Block) → Type 0) (k : ℕ) (s : Fs)
      → ((d : ℕ → Block) → IsCommitted p d → Q d)
      → k < p.n
      → Installing p Q k s
      → Installing p Q (suc k) (install_one k s)
  install_one-Installing Q k s q lt h = rw (install_one_lem k s lt h.follows h.committed) (record {
    follows = Follows-bwrite s (p.t k) _ h.follows;
    committed = after;
    installed = λ i l. installed-at i l;
    clean = λ i l. clean-at i l;
    past_Q = (q _ after, h.past_Q);
  })
    where
      after : IsCommitted p (update s.disk (p.t k) (p.new (p.t k)))
      after = IsCommitted-update s.disk k (p.new (p.t k)) lt h.committed

      installed-at :
          (i : ℕ) → i < suc k → update s.disk (p.t k) (p.new (p.t k)) (p.t i) ≡ p.new (p.t i)
      installed-at i l = elim (Bool-cases (i == k)) [
        | inl e ↦ rw ((==_iff i k).0 e) (update_same s.disk (p.t k) (p.new (p.t k)))
        | inr e ↦
            update_ne s.disk (p.t k) _ (p.t i) (λ same. absurd (ground (arith, v.distinct i k)))
            ∙ h.installed i (ground arith)
      ]

      clean-at : (i : ℕ) → i < suc k → update s.cache (p.t k) none (p.t i) ≡ none
      clean-at i l = elim (Bool-cases (i == k)) [
        | inl e ↦ rw ((==_iff i k).0 e) (update_same s.cache (p.t k) none)
        | inr e ↦ update-none s.cache (p.t k) (p.t i) (h.clean i (ground arith))
      ]

  -- The whole loop, when every disk with the committed transaction satisfies `Q`.
  pub install_trans-Installing :
      (Q : (ℕ → Block) → Type 0) (s : Fs)
      → ((d : ℕ → Block) → IsCommitted p d → Q d)
      → Follows p s
      → IsCommitted p s.disk
      → All Q s.past
      → Installing p Q p.n (install_trans s)
  unfolding install_trans
  install_trans-Installing Q s q f c a =
      subst (λ m. Installing p Q p.n (count_up m 0 install_one s)) (sym f.n_eq)
        (count_up-keeps (Installing p Q) install_one p.n 0 p.n s (omega arith)
          (λ k u lt h. install_one-Installing Q k u q lt h)
          (record {
            follows = f;
            committed = c;
            installed = λ i l. absurd (omega arith);
            clean = λ i l. absurd (omega arith);
            past_Q = a;
          }))
