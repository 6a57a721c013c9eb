-- ===== src/Inode/Bmap.antt =====
-- `bmap` of fs.c on a file.
use col.Base.{
  ap, ltb→lt, ==_iff, Bool-cases, Option-cases, arith, false, inl, inr, ltb, lt→ltb, none, refl,
  some, some-injective, subst, sym, true, ℕ, ◌*◌, ◌+◌, ◌-◌, ◌<◌, ◌==◌, ◌∙◌, ◌≡◌, ◌≢◌,
}
use col.Disk.{Disk, balloc, to_log}
use col.Disk.Blocks.{balloc-Allocated}
use col.Inode.{
  bmap, Inode, addr, put_addr, ndirect, nindirect, maxfile, word_at, put_word, ensure_addr,
  ensure_entry,
}
use col.Inode.Mapped.{block_of, file_byte, IsFile}
use col.Inode.Growth.{
  Gives, direct-Gives, indirect_block, indirect-IsFile, indirect_bytes, entry-Gives,
}

pub ensure_addr_new :
    (i x : ℕ) (ip : Inode) (d d' : Disk)
    → addr ip i ≡ 0
    → balloc d ≡ some (x, d')
    → ensure_addr i ip d ≡ some (x, put_addr i x ip, d')
unfolding ensure_addr
ensure_addr_new i x ip d d' z e = rw (z, e) refl

pub ensure_addr_full :
    (i : ℕ) (ip : Inode) (d : Disk) → addr ip i ≡ 0 → balloc d ≡ none → ensure_addr i ip d ≡ none
unfolding ensure_addr
ensure_addr_full i ip d z e = rw (z, e) refl

pub ensure_addr_old :
    (i : ℕ) (ip : Inode) (d : Disk) → addr ip i ≢ 0 → ensure_addr i ip d ≡ some (addr ip i, ip, d)
unfolding ensure_addr
ensure_addr_old i ip d ne = ground arith

old-Gives :
    (d : Disk) (ip : Inode) (bn : ℕ)
    → IsFile d ip
    → block_of d ip bn ≢ 0
    → Gives d d ip ip bn (block_of d ip bn)
old-Gives d ip bn f ne = record {
  file = f;
  answer = (refl, ne);
  same_bytes = λ k lt. refl;
  stays = λ j ne. refl;
  same_size = refl;
  same_fields = refl;
}

direct :
    (bn b : ℕ) (ip ip' : Inode) (d d' : Disk)
    → IsFile d ip
    → bn < ndirect
    → ensure_addr bn ip d ≡ some (b, ip', d')
    → Gives d d' ip ip' bn b
direct bn b ip ip' d d' f lt e =
    let near : ltb bn ndirect ≡ true = lt→ltb bn ndirect lt in
    elim (Bool-cases (addr ip bn == 0)) [
      | inr nz ↦
          let ne : addr ip bn ≢ 0 = ground arith in
          let q = some-injective _ _ (sym (ensure_addr_old bn ip d ne) ∙ e) in
          let at : block_of d ip bn ≡ addr ip bn = rw near refl in
          subst (λ r. Gives d r.2 ip r.1 bn r.0) q
            (subst (Gives d d ip ip bn) at (old-Gives d ip bn f (subst (λ x. x ≢ 0) (sym at) ne)))
      | inl z ↦ elim (Option-cases (balloc d)) [
        | inl full ↦ cc (ensure_addr_full bn ip d ((==_iff _ _).0 z) full)
        | inr ((x, d1), got) ↦
            let zero_addr = (==_iff _ _).0 z in
            let q = some-injective _ _ (sym (ensure_addr_new bn x ip d d1 zero_addr got) ∙ e) in
            subst (λ r. Gives d r.2 ip r.1 bn r.0) q
              (direct-Gives d d1 x bn ip f (balloc-Allocated d d1 x f.is_bytes got) lt zero_addr)
      ]
    ]

-- What making sure of the indirect block gives.
pub record Indirect (d d' : Disk) (ip ip' : Inode) (blk : ℕ) : Type 0 where
  pub file : IsFile d' ip'
  pub is_addr : addr ip' ndirect ≡ blk
  pub nonzero : blk ≢ 0
  same_bytes : (k : ℕ) → k < maxfile * 512 → file_byte d' ip' k ≡ file_byte d ip k
  stays : (j : ℕ) → block_of d ip j ≢ 0 → block_of d' ip' j ≡ block_of d ip j
  pub same_size : d'.size ≡ d.size
  same_fields : ip' ≡ record ip { addrs = ip'.addrs }

pub indirect :
    (blk : ℕ) (ip ip' : Inode) (d d' : Disk)
    → IsFile d ip
    → ensure_addr ndirect ip d ≡ some (blk, ip', d')
    → Indirect d d' ip ip' blk
indirect blk ip ip' d d' f e = elim (Bool-cases (addr ip ndirect == 0)) [
  | inr nz ↦
      let ne : addr ip ndirect ≢ 0 = ground arith in
      let q = some-injective _ _ (sym (ensure_addr_old ndirect ip d ne) ∙ e) in
      subst (λ r. Indirect d r.2 ip r.1 r.0) q
        (record {
          file = f;
          is_addr = refl;
          nonzero = ne;
          same_bytes = λ k lt. refl;
          stays = λ j n. refl;
          same_size = refl;
          same_fields = refl;
        })
  | inl z ↦ elim (Option-cases (balloc d)) [
    | inl full ↦ cc (ensure_addr_full ndirect ip d ((==_iff _ _).0 z) full)
    | inr ((x, d1), got) ↦
        let zero_addr = (==_iff _ _).0 z in
        let q = some-injective _ _ (sym (ensure_addr_new ndirect x ip d d1 zero_addr got) ∙ e) in
        let a = balloc-Allocated d d1 x f.is_bytes got in
        let (file, put, nonzero) = indirect-IsFile d d1 x 0 ip f a zero_addr in
        subst (λ r. Indirect d r.2 ip r.1 r.0) q
          (record {
            file = file;
            is_addr = put;
            nonzero = nonzero;
            same_bytes = λ k lt. indirect_bytes d d1 x 0 ip f a k lt zero_addr;
            stays = λ j n. indirect_block d d1 x 0 ip f a j zero_addr;
            same_size = a.size_eq;
            same_fields = refl;
          })
  ]
]

entry :
    (i b : ℕ) (ip ip' : Inode) (d d' : Disk)
    → IsFile d ip
    → addr ip ndirect ≢ 0
    → i < nindirect
    → ensure_entry (addr ip ndirect) i ip d ≡ some (b, ip', d')
    → Gives d d' ip ip' (i + ndirect) b
unfolding ensure_entry
entry i b ip ip' d d' f ne lt e =
    let far : ltb (i + ndirect) ndirect ≡ false = ground arith in
    let nz : (addr ip ndirect == 0) ≡ false = ground arith in
    let index : i + ndirect - ndirect ≡ i = omega arith in
    let w : ℕ = word_at (d.bytes (addr ip ndirect)) i in
    elim (Bool-cases (w == 0)) [
      | inr there ↦
          let wn : w ≢ 0 = λ e'. cc ((==_iff w 0).1 e') in
          let q : some (w, ip, d) ≡ some (b, ip', d') = rw there at e in
          let at : block_of d ip (i + ndirect) ≡ w = rw (far, nz, index) refl in
          subst (λ r. Gives d r.2 ip r.1 (i + ndirect) r.0) (some-injective _ _ q)
            (subst (Gives d d ip ip (i + ndirect)) at
              (old-Gives d ip (i + ndirect) f (subst (λ x. x ≢ 0) (sym at) wn)))
      | inl z ↦ elim (Option-cases (balloc d)) [
        | inl full ↦ cc (rw (z, full) at e)
        | inr ((x, d1), got) ↦
            let q : some (x, ip, to_log (addr ip ndirect) (put_word (addr ip ndirect) i x d1))
                ≡ some (b, ip', d') =
              rw (z, got) at e in
            subst (λ r. Gives d r.2 ip r.1 (i + ndirect) r.0) (some-injective _ _ q)
              (entry-Gives d d1 x 0 ip f (balloc-Allocated d d1 x f.is_bytes got) i ne lt
                ((==_iff _ _).0 z))
      ]
    ]

-- A call of `bmap` on a file that panics neither itself nor in `log_write` gives a block for `bn`, which was in range: the one
-- that the file had, or a new one. The file stays well-formed and reads as before, missing blocks as
-- zeros, and no field of the inode changes but the addresses.
pub bmap-Gives :
    (bn b : ℕ) (ip ip' : Inode) (d d' : Disk)
    → IsFile d ip
    → bmap bn ip d ≡ some (b, ip', d')
    → Gives d d' ip ip' bn b × (bn < maxfile)
unfolding bmap
bmap-Gives bn b ip ip' d d' f e = elim (Bool-cases (ltb bn ndirect)) [
  | inl near ↦ (direct bn b ip ip' d d' f (ltb→lt _ _ near) (rw near at e), ground arith)
  | inr far ↦ elim (Bool-cases (ltb (bn - ndirect) nindirect)) [
    | inr out ↦ cc (rw (far, out) at e)
    | inl in_range ↦ elim (Option-cases (ensure_addr ndirect ip d)) [
      | inl full ↦ cc (rw (far, in_range, full) at e)
      | inr ((blk, ip1, d1), got) ↦
          let s = indirect blk ip ip1 d d1 f got in
          let step : ensure_entry blk (bn - ndirect) ip1 d1 ≡ some (b, ip', d') =
            rw (far, in_range, got) at e in
          let ne : addr ip1 ndirect ≢ 0 = subst (λ x. x ≢ 0) (sym s.is_addr) s.nonzero in
          let index : bn - ndirect + ndirect ≡ bn = ground arith in
          let g : Gives d1 d' ip1 ip' bn b =
            subst (λ n. Gives d1 d' ip1 ip' n b) index
              (entry (bn - ndirect) b ip1 ip' d1 d' s.file ne (ltb→lt _ _ in_range) (
                subst (λ x. ensure_entry x (bn - ndirect) ip1 d1 ≡ some (b, ip', d'))
                  (sym s.is_addr) step)) in
          (
            record {
              file = g.file;
              answer = g.answer;
              same_bytes = λ k lt. g.same_bytes k lt ∙ s.same_bytes k lt;
              stays = λ j ne'.
                  let e' = s.stays j ne' in g.stays j (subst (λ x. x ≢ 0) (sym e') ne') ∙ e';
              same_size = g.same_size ∙ s.same_size;
              same_fields =
                  g.same_fields ∙ ap (λ (i : Inode). record i { addrs = ip'.addrs }) s.same_fields;
            },
            ground arith,
          )
    ]
  ]
]
