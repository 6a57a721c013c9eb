-- ===== src/Inode/Bytes.antt =====
-- The loop of `writei` in fs.c, and `writei`.
use col.Base.{
  ap, Bool-cases, arith, false, inl, inr, leb, ltb, refl, subst, sym, if◌then◌else◌, ◌&&◌, ℕ, ◌*◌,
  ◌+◌, ◌-◌, ◌/◌, ◌%◌, ◌<◌, ◌≤◌, ◌==◌, ◌∙◌, ◌≡◌, ◌≢◌,
}
use col.Disk.{Disk, to_log}
use col.Inode.{Inode, maxfile, round, put_bytes}
use col.Inode.Mapped.{block_of, file_byte, IsFile}
use col.Inode.Growth.{Gives}
use col.Inode.Put.{put-IsFile, put-file_byte, put-block_of}

-- `left` bytes of `src` from `at` on stand in the file from `off` on, and the rest is as before.
pub record Written (d d' : Disk) (ip ip' : Inode) (at off left : ℕ) (src : ℕ → ℕ) : Type 0 where
  pub file : IsFile d' ip'
  pub bytes :
      (k : ℕ)
      → k < maxfile * 512
      → file_byte d' ip' k
        ≡ (if leb off k && ltb k (off + left) then src (at + (k - off)) else file_byte d ip k)
  pub mapped : (k : ℕ) → off ≤ k → k < off + left → block_of d' ip' (k / 512) ≢ 0
  pub stays : (j : ℕ) → block_of d ip j ≢ 0 → block_of d' ip' j ≡ block_of d ip j
  pub same_size : d'.size ≡ d.size
  pub same_fields : ip' ≡ record ip { addrs = ip'.addrs }

pub nothing-Written :
    (d : Disk) (ip : Inode) (at off : ℕ) (src : ℕ → ℕ)
    → IsFile d ip
    → Written d d ip ip at off 0 src
nothing-Written d ip at off src f = record {
  file = f;
  bytes = λ k lt. ground arith;
  mapped = λ k lo hi. ground arith;
  stays = λ j ne. refl;
  same_size = refl;
  same_fields = refl;
}

-- One round: `bmap`, and the bytes of one block.
module _ (d d' : Disk) (ip ip' : Inode) (at off left b : ℕ) (src : ℕ → ℕ)
    (g : Gives d d' ip ip' (off / 512) b) (lt : off / 512 < maxfile) where
  abbrev pub m : ℕ
  m = round off left

  abbrev pub part : ℕ → ℕ
  part k = src (at + k)

  abbrev pub after : Disk
  after = to_log b (put_bytes b (off % 512) m part d')

  in_block :
      (k : ℕ)
      → (k / 512 == off / 512 && (leb (off % 512) (k % 512) && ltb (k % 512) (off % 512 + m)))
        ≡ (leb off k && ltb k (off + m))
  in_block k = ground arith

  -- The round writes its part.
  pub round-Written : Written d after ip ip' at off m src
  unfolding put_bytes
  round-Written =
      let (here, nz) = g.answer in
      let q = put-block_of d' ip' (off / 512) b g.file lt here nz (off % 512) m part in
      record {
        file = put-IsFile d' ip' (off / 512) b g.file lt here nz (off % 512) m part;
        bytes = λ k small.
            put-file_byte d' ip' (off / 512) b g.file lt here nz (off % 512) m part k small
            ∙ rw (in_block k, g.same_bytes k small)
                (elim (Bool-cases (leb off k && ltb k (off + m))) [
                  | inl e ↦ let i : k % 512 - off % 512 ≡ k - off = ground arith in rw e (ap part i)
                  | inr e ↦ rw e refl
                ]);
        mapped = λ k lo hi.
            let same : k / 512 ≡ off / 512 = let i = in_block k in ground arith in
            subst (λ x. x ≢ 0) (sym (q (k / 512) ∙ ap (block_of d' ip') same ∙ here)) nz;
        stays = λ j ne. q j ∙ g.stays j ne;
        same_size = g.same_size;
        same_fields = g.same_fields;
      }

-- Two writes, one after the other.
pub Written-then :
    (d d1 d' : Disk) (ip ip1 ip' : Inode) (at off m left : ℕ) (src : ℕ → ℕ)
    → m ≤ left
    → Written d d1 ip ip1 at off m src
    → Written d1 d' ip1 ip' (at + m) (off + m) (left - m) src
    → Written d d' ip ip' at off left src
Written-then d d1 d' ip ip1 ip' at off m left src le v w = record {
  file = w.file;
  bytes = λ k small. w.bytes k small ∙ elim (Bool-cases (leb (off + m) k)) [
    | inl hi ↦
        let i : at + m + (k - (off + m)) ≡ at + (k - off) = ground arith in
        let e : (ltb k (off + m + (left - m))) ≡ (leb off k && ltb k (off + left)) = ground arith in
        let no : (leb off k && ltb k (off + m)) ≡ false = ground arith in
        rw (hi, i, e, v.bytes k small, no) refl
    | inr lo ↦
        let e : (leb off k && ltb k (off + m)) ≡ (leb off k && ltb k (off + left)) = ground arith in
        rw (lo, v.bytes k small, e) refl
  ];
  mapped = λ k lo hi. elim (Bool-cases (leb (off + m) k)) [
    | inl far ↦ w.mapped k (ground arith) (ground arith)
    | inr near ↦
        let n = v.mapped k lo (ground arith) in subst (λ x. x ≢ 0) (sym (w.stays (k / 512) n)) n
  ];
  stays = λ j ne. let e = v.stays j ne in w.stays j (subst (λ x. x ≢ 0) (sym e) ne) ∙ e;
  same_size = w.same_size ∙ v.same_size;
  same_fields = w.same_fields ∙ ap (λ (i : Inode). record i { addrs = ip'.addrs }) v.same_fields;
}
