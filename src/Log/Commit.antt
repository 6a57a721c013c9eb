-- ===== src/Log/Commit.antt =====
-- `commit` of log.c and a crash on the way: the loop of `write_log`, the write of the header, and the
-- transactions that are ready for it.
use col.Base.{
  length, get_or, none, ◌∷◌, List, [], lt→ltb, ◌≤◌, ◌⊎◌, refl, ==_iff, Bool-cases, ap, ap₂, arith,
  count_up, count_up-keeps, inl, inr, subst, suc, sym, ℕ, ◌+◌, ◌<◌, ◌==◌, ◌∙◌, ◌≡◌, ◌≢◌,
}
use col.Log.{
  Block, Fs, bread, bwrite, update, home, log_one, write_log, header, write_head, install_trans,
  commit, recover_from_log, logsize,
}
use col.Log.Words.{IsHeader, header-IsHeader}
use col.Log.Disk.{
  All, Plan, IsPlan, IsOld, IsCommitted, IsDone, IsSafe, Follows, Installing, update_same,
  update_ne, bread_clean, logged-ne, Follows-bwrite, install_trans-Installing,
}
use col.Log.Recovery.{boot, Installing-IsDone, recover-IsOld, recover-IsDone}

-- The loop of `write_log` before round `k`.
record Logging (p : Plan) (k : ℕ) (s : Fs) : Type 0 where
  follows : Follows p s
  is_old : IsOld p s.disk
  logged : (i : ℕ) → i < k → s.disk (p.start + i + 1) ≡ p.new (p.t i)
  reads : (i : ℕ) → i < p.n → bread s (p.t i) ≡ p.new (p.t i)
  past_safe : All (IsSafe p) s.past

bread-bwrite_ne : (s : Fs) (b x : ℕ) (w : Block) → x ≢ b → bread (bwrite s b w) x ≡ bread s x
bread-bwrite_ne s b x w h = ground arith

commit_runs :
    (s : Fs)
    → 0 < s.n
    → commit s ≡ write_head (record (install_trans (write_head (write_log s))) { n = 0 })
unfolding commit
commit_runs s h = rw (lt→ltb 0 s.n h)

finish_past :
    {p : Plan} (s : Fs)
    → IsDone p (write_head (record s { n = 0 })).disk
    → All (IsSafe p) s.past
    → All (IsSafe p) (write_head (record s { n = 0 })).past
unfolding write_head
finish_past s d a = (inr (inr d), a)

module _ (p : Plan) (v : IsPlan p) where
  log_one_lem :
      (k : ℕ) (s : Fs)
      → k < p.n
      → Logging p k s
      → log_one k s ≡ bwrite s (p.start + k + 1) (p.new (p.t k))
  log_one_lem k s lt h =
      ap₂ (bwrite s) (ap (λ x. x + k + 1) h.follows.start_eq)
        (ap (bread s) (h.follows.entries k lt) ∙ h.reads k lt)

  IsOld-update :
      (d : ℕ → Block) (k : ℕ) (w : Block)
      → k < p.n
      → IsOld p d
      → IsOld p (update d (p.start + k + 1) w)
  IsOld-update d k w lt o =
      let fits = v.fits in
      record {
        head =
            subst (λ hb. IsHeader hb 0 p.t)
              (sym (update_ne d (p.start + k + 1) w p.start (λ e. omega arith))) o.head;
        data_old =
            λ x out. update_ne d (p.start + k + 1) w x (λ e. ground arith) ∙ o.data_old x out;
      }

  log_one-Logging : (k : ℕ) (s : Fs) → k < p.n → Logging p k s → Logging p (suc k) (log_one k s)
  log_one-Logging k s lt h = subst (Logging p (suc k)) (sym (log_one_lem k s lt h)) (record {
    follows = Follows-bwrite p v s _ _ h.follows;
    is_old = after;
    logged = logged-at;
    reads = λ i l.
        bread-bwrite_ne s (p.start + k + 1) (p.t i) _ (λ e. logged-ne p v i k l lt (sym e))
        ∙ h.reads i l;
    past_safe = (inl after, h.past_safe);
  })
    where
      after : IsOld p (update s.disk (p.start + k + 1) (p.new (p.t k)))
      after = IsOld-update s.disk k (p.new (p.t k)) lt h.is_old

      logged-at :
          (i : ℕ)
          → i < suc k
          → update s.disk (p.start + k + 1) (p.new (p.t k)) (p.start + i + 1) ≡ p.new (p.t i)
      logged-at i l = elim (Bool-cases (i == k)) [
        | inl e ↦ rw ((==_iff i k).0 e) (update_same s.disk (p.start + k + 1) (p.new (p.t k)))
        | inr e ↦
            update_ne s.disk (p.start + k + 1) _ (p.start + i + 1) (λ q. ground arith)
            ∙ h.logged i (ground arith)
      ]

  write_log-Logging : (s : Fs) → Logging p 0 s → Logging p p.n (write_log s)
  unfolding write_log
  write_log-Logging s h =
      subst (λ m. Logging p p.n (count_up m 0 log_one s)) (sym h.follows.n_eq)
        (count_up-keeps (Logging p) log_one p.n 0 p.n s (omega arith)
          (λ k u lt g. log_one-Logging k u lt g) h)

  -- The write of the header is the commit point.
  write_head-IsCommitted : (s : Fs) → Logging p p.n s → IsCommitted p (write_head s).disk
  unfolding write_head
  write_head-IsCommitted s h =
      let f = h.follows in
      let fits = v.fits in
      let o = h.is_old in
      let small : s.n ≤ logsize = subst (λ m. m ≤ logsize) (sym f.n_eq) v.small in
      let clean : s.cache s.start ≡ none =
        subst (λ b. s.cache b ≡ none) (sym f.start_eq)
          (f.unpinned p.start (omega arith) (omega arith)) in
      let long : length (bread s s.start) ≡ 128 =
        ap length (bread_clean s s.start clean)
        ∙ subst (λ b. length (s.disk b) ≡ 128) (sym f.start_eq) o.head.long in
      let hb : IsHeader (header s) s.n p.t =
        header-IsHeader s p.t small long (λ i l. f.entries i (subst (λ m. i < m) f.n_eq l)) in
      let kept : (x : ℕ) → x ≢ p.start → update s.disk s.start (header s) x ≡ s.disk x =
        (λ x ne. update_ne s.disk s.start (header s) x (λ e. ne (e ∙ f.start_eq))) in
      record {
        head =
            subst (λ m. IsHeader (update s.disk s.start (header s) p.start) m p.t) f.n_eq
              (subst (λ b. IsHeader (update s.disk s.start (header s) b) s.n p.t) f.start_eq
                (subst (λ w. IsHeader w s.n p.t) (sym (update_same s.disk s.start (header s))) hb));
        logged = λ i l. kept (p.start + i + 1) (λ e. omega arith) ∙ h.logged i l;
        rest = λ x out u. kept x (λ e. ground arith) ∙ o.data_old x out;
      }

  commit-Installing :
      (s : Fs)
      → Logging p 0 s
      → Installing p (IsSafe p) p.n (install_trans (write_head (write_log s)))
  unfolding write_head
  commit-Installing s h =
      let g = write_log-Logging s h in
      let c = write_head-IsCommitted (write_log s) g in
      install_trans-Installing p v (IsSafe p) (write_head (write_log s)) (λ e k. inr (inl k))
        (Follows-bwrite p v (write_log s) _ _ g.follows) c (inr (inl c), g.past_safe)

  commit-IsDone :
      (s : Fs) → 0 < s.n → Logging p 0 s → IsDone p (commit s).disk × All (IsSafe p) (commit s).past
  commit-IsDone s some_n h =
      let g = commit-Installing s h in
      let fin = Installing-IsDone p v (IsSafe p) _ g in
      subst (λ u. IsDone p u.disk × All (IsSafe p) u.past) (sym (commit_runs s some_n))
        (fin, finish_past (install_trans (write_head (write_log s))) fin g.past_Q)

-- What the calls of `log_write` leave behind when the last operation ends: a transaction of distinct
-- blocks outside the log that fits in it, whose blocks are the pinned ones, and an empty log.
pub record IsReady (s : Fs) : Type 0 where
  pub small : s.n ≤ logsize
  pub fits : s.n < s.size
  pub outside : (i : ℕ) → i < s.n → (home s i < s.start) ⊎ (s.start + s.size ≤ home s i)
  pub distinct : (i j : ℕ) → i < s.n → j < s.n → home s i ≡ home s j → i ≡ j
  pub unpinned : (x : ℕ) → s.start ≤ x → x < s.start + s.size → s.cache x ≡ none
  pub pinned : (x : ℕ) → ((i : ℕ) → i < s.n → home s i ≢ x) → s.cache x ≡ none
  pub long : length (s.disk s.start) ≡ 128
  pub empty : get_or (s.disk s.start) 0 0 ≡ 0

abbrev pub plan_of : Fs → Plan
plan_of s = record {
  start = s.start;
  size = s.size;
  n = s.n;
  t = home s;
  old = s.disk;
  new = bread s;
}

plan_of-IsPlan : (s : Fs) → IsReady s → IsPlan (plan_of s)
plan_of-IsPlan s r = record {
  small = r.small;
  fits = r.fits;
  outside = r.outside;
  distinct = r.distinct;
  same = λ x u. bread_clean s x (r.pinned x u);
}

plan_of-Logging : (s : Fs) → IsReady s → s.past ≡ [] → Logging (plan_of s) 0 s
plan_of-Logging s r e = record {
  follows = record {
    start_eq = refl;
    n_eq = refl;
    entries = λ i l. refl;
    unpinned = r.unpinned;
    pinned = r.pinned;
  };
  is_old = record {
    head = record { long = r.long; count = r.empty; entries = λ i l. absurd (omega arith) };
    data_old = λ x o. refl;
  };
  logged = λ i l. absurd (omega arith);
  reads = λ i l. refl;
  past_safe = subst (All (IsSafe (plan_of s))) (sym e) tt;
}

-- What a restart makes of disk `d`: outside the log all blocks read as before the transaction, or
-- all read as the buffers did when `commit` was called.
abbrev pub Atomic : Fs → (ℕ → Block) → Type 0
Atomic s d =
    let r = recover_from_log (boot s.start s.size d) in
    ((x : ℕ) → (x < s.start) ⊎ (s.start + s.size ≤ x) → r.disk x ≡ s.disk x)
    ⊎ ((x : ℕ) → (x < s.start) ⊎ (s.start + s.size ≤ x) → r.disk x ≡ bread s x)

IsSafe-Atomic : (s : Fs) → IsReady s → (d : ℕ → Block) → IsSafe (plan_of s) d → Atomic s d
IsSafe-Atomic s r d (inl o) = inl (recover-IsOld (plan_of s) (plan_of-IsPlan s r) d o).data_old
IsSafe-Atomic s r d (inr c) = inr (recover-IsDone (plan_of s) (plan_of-IsPlan s r) d c).data_new

All-map :
    (P Q : (ℕ → Block) → Type 0)
    → ((d : ℕ → Block) → P d → Q d)
    → (ds : List (ℕ → Block)) → All P ds
    → All Q ds
All-map P Q f [] a = tt
All-map P Q f (d ∷ ds) a = (f d a.0, All-map P Q f ds a.1)

-- A crash after any block write of `commit`, of a transaction that is ready and not empty, is
-- harmless: from the disk that is left, recovery restores outside the log either all the contents
-- before the transaction or all those that the buffers held.
pub commit-Atomic : (s : Fs) → IsReady s → 0 < s.n → s.past ≡ [] → All (Atomic s) (commit s).past
commit-Atomic s r some_n e =
    All-map (IsSafe (plan_of s)) (Atomic s) (IsSafe-Atomic s r) (commit s).past
      (commit-IsDone (plan_of s) (plan_of-IsPlan s r) s some_n (plan_of-Logging s r e)).1

-- Without a crash `commit`, of a transaction that is ready and not empty, leaves every block outside
-- the log as the buffers had it, and the log on the disk empty.
pub commit_finishes :
    (s : Fs)
    → IsReady s
    → 0 < s.n
    → s.past ≡ []
    → (x : ℕ) → (x < s.start) ⊎ (s.start + s.size ≤ x)
    → ((commit s).disk x ≡ bread s x) × (get_or ((commit s).disk s.start) 0 0 ≡ 0)
commit_finishes s r some_n e x out =
    let d = (commit-IsDone (plan_of s) (plan_of-IsPlan s r) s some_n (plan_of-Logging s r e)).0 in
    (d.data_new x out, d.head.count)
