-- ===== src/Log/Recovery.antt =====
-- `recover_from_log` on each disk that a crash can leave.
use col.Base.{
  refl, length-replicate, get_or, count_up, ◌≤◌, ==_iff, Bool-cases, [], ap, arith, false, inl, inr,
  length, none, replicate, subst, suc, sym, zero, ℕ, ◌<◌, ◌==◌, ◌∙◌, ◌≡◌, ◌≢◌, ◌⊎◌,
}
use col.Log.{
  Block, Fs, bread, update, header, write_head, read_head, install_one, install_trans,
  recover_from_log, logsize,
}
use col.Log.Words.{IsHeader, header-IsHeader, read_head-entries}
use col.Log.Disk.{
  All, Plan, Outside, IsPlan, IsOld, IsCommitted, IsDone, IsSafe, Follows, Installing, update_same,
  update_ne, bread_clean, install_trans-Installing,
}

-- The machine after a restart with disk `d`: no buffer is cached, and `log` is zeroed.
abbrev pub boot : ℕ → ℕ → (ℕ → Block) → Fs
boot start size d = record {
  disk = d;
  cache = λ x. none;
  past = [];
  start = start;
  size = size;
  outstanding = 0;
  committing = false;
  n = 0;
  block = replicate logsize 0;
}

-- A block is one of the plan's, or none of them.
pub find-target :
    (n : ℕ) (t : ℕ → ℕ) (x : ℕ) → ((i : ℕ) → i < n → t i ≢ x) ⊎ ((i : ℕ) × (i < n) × (t i ≡ x))
find-target zero t x = inl (λ i h. absurd (omega arith))
find-target (suc n) t x = elim (find-target n t x) [
  | inr (i, h, e) ↦ inr (i, omega arith, e)
  | inl miss ↦ elim (Bool-cases (t n == x)) [
    | inl e ↦ inr (n, omega arith, (==_iff _ _).0 e)
    | inr e ↦ inl (λ i h q. elim (Bool-cases (i == n)) [
      | inl j ↦ ground (arith, ap t ((==_iff i n).0 j))
      | inr j ↦ miss i (ground arith) q
    ])
  ]
]

-- Where a disk and a header block stand after the log is erased.
pub record Erased (p : Plan) (d d' : ℕ → Block) : Type 0 where
  pub head : IsHeader (d' p.start) 0 p.t
  pub kept : (x : ℕ) → x ≢ p.start → d' x ≡ d x

install_none : (s : Fs) → s.n ≡ 0 → install_trans s ≡ s
unfolding install_trans count_up
install_none s e = subst (λ m. count_up m 0 install_one s ≡ s) (sym e) refl

module _ (p : Plan) (v : IsPlan p) where
  pub erase-Erased :
      (s : Fs)
      → s.start ≡ p.start
      → s.cache p.start ≡ none
      → length (s.disk p.start) ≡ 128
      → Erased p s.disk (write_head (record s { n = 0 })).disk
  unfolding write_head
  erase-Erased s e c l =
      let clean : s.cache s.start ≡ none = subst (λ b. s.cache b ≡ none) (sym e) c in
      let long : length (bread s s.start) ≡ 128 =
        ap length (bread_clean s s.start clean) ∙ subst (λ b. length (s.disk b) ≡ 128) (sym e) l in
      let hb =
        header-IsHeader (record s { n = 0 }) p.t (omega arith) long (λ i h. absurd (omega arith)) in
      record {
        head =
            subst (λ b. IsHeader (update s.disk s.start (header (record s { n = 0 })) b) 0 p.t) e
              (subst (λ w. IsHeader w 0 p.t) (sym (update_same s.disk s.start _)) hb);
        kept = λ x ne. update_ne s.disk s.start _ x (λ q. ne (q ∙ e));
      }

  pub Erased-Outside : (d d' : ℕ → Block) (x : ℕ) → Erased p d d' → Outside p x → d' x ≡ d x
  Erased-Outside d d' x e o = let fits = v.fits in e.kept x (λ same. ground arith)

  -- All home blocks hold the new contents when the loop is done.
  pub Installing-new :
      (Q : (ℕ → Block) → Type 0) (s : Fs) (x : ℕ)
      → Installing p Q p.n s
      → Outside p x
      → s.disk x ≡ p.new x
  Installing-new Q s x h o = elim (find-target p.n p.t x) [
    | inl miss ↦ h.committed.rest x o miss ∙ sym (v.same x miss)
    | inr (i, lt, e) ↦ subst (λ y. s.disk y ≡ p.new y) e (h.installed i lt)
  ]

  -- The end of `commit` and of a recovery that found a transaction.
  pub Installing-IsDone :
      (Q : (ℕ → Block) → Type 0) (s : Fs)
      → Installing p Q p.n s
      → IsDone p (write_head (record s { n = 0 })).disk
  Installing-IsDone Q s h =
      let fits = v.fits in
      let e =
        erase-Erased s h.follows.start_eq (h.follows.unpinned p.start (omega arith) (omega arith))
          h.committed.head.long in
      record {
        head = e.head;
        data_new = λ x o. Erased-Outside _ _ x e o ∙ Installing-new Q s x h o;
      }

  -- What the restarted machine knows after `read_head`.
  read_head-boot :
      (d : ℕ → Block) (n : ℕ)
      → n ≤ logsize
      → IsHeader (d p.start) n p.t
      → let u = read_head (boot p.start p.size d) in
        (u.n ≡ n) × ((i : ℕ) → i < n → get_or u.block i 0 ≡ p.t i)
  read_head-boot d n small h =
      let (c, l, e) =
        read_head-entries (boot p.start p.size d) n p.t small (length-replicate {A = ℕ} logsize 0)
          h in
      (c, e)

  -- Without a transaction in the log, `recover_from_log` changes no block but the header.
  recover_clean :
      (d : ℕ → Block)
      → IsHeader (d p.start) 0 p.t
      → Erased p d (recover_from_log (boot p.start p.size d)).disk
  unfolding recover_from_log read_head
  recover_clean d h =
      let u : Fs = read_head (boot p.start p.size d) in
      let idle : install_trans u ≡ u = install_none u (read_head-boot d 0 (omega arith) h).0 in
      subst (λ w. Erased p d (write_head (record w { n = 0 })).disk) (sym idle)
        (erase-Erased u refl refl h.long)

  Follows-read_head :
      (d : ℕ → Block) → IsCommitted p d → Follows p (read_head (boot p.start p.size d))
  unfolding read_head
  Follows-read_head d c =
      let (n_eq, entries) = read_head-boot d p.n v.small c.head in
      record {
        start_eq = refl;
        n_eq = n_eq;
        entries = entries;
        unpinned = λ x lo hi. refl;
        pinned = λ x u. refl;
      }

  recover_committed :
      (d : ℕ → Block)
      → IsCommitted p d
      → let r = recover_from_log (boot p.start p.size d) in IsDone p r.disk × All (IsSafe p) r.past
  unfolding recover_from_log read_head write_head
  recover_committed d c =
      let u : Fs = read_head (boot p.start p.size d) in
      let h =
        install_trans-Installing p v (IsSafe p) u (λ e k. inr (inl k)) (Follows-read_head d c) c
          tt in
      let fin = Installing-IsDone (IsSafe p) (install_trans u) h in (fin, (inr (inr fin), h.past_Q))

  -- Recovery from a disk without a committed transaction leaves, outside the log, the old contents,
  -- and the log empty.
  pub recover-IsOld :
      (d : ℕ → Block) → IsOld p d → IsOld p (recover_from_log (boot p.start p.size d)).disk
  recover-IsOld d o =
      let e = recover_clean d o.head in
      record { head = e.head; data_old = λ x out. Erased-Outside _ _ x e out ∙ o.data_old x out }

  -- Recovery from a disk with the committed transaction, its home blocks holding anything, or from
  -- one where the transaction is finished, leaves the new contents outside the log, and the log empty.
  pub recover-IsDone :
      (d : ℕ → Block)
      → (IsCommitted p d) ⊎ (IsDone p d)
      → IsDone p (recover_from_log (boot p.start p.size d)).disk
  recover-IsDone d (inl c) = (recover_committed d c).0
  recover-IsDone d (inr o) =
      let e = recover_clean d o.head in
      record { head = e.head; data_new = λ x out. Erased-Outside _ _ x e out ∙ o.data_new x out }

  -- Each disk that a crash during the recovery of a committed transaction can leave is one that
  -- recovery gets right: old, committed or finished.
  pub recover_past :
      (d : ℕ → Block)
      → IsCommitted p d
      → All (IsSafe p) (recover_from_log (boot p.start p.size d)).past
  recover_past d c = (recover_committed d c).1
