-- ===== src/Inode/Put.antt =====
-- Writing bytes into a block of a file.
use col.Base.{
  Bool-cases, false, true, ==_iff, ap, arith, if◌then◌else◌, inl, inr, leb, ltb, refl, subst, sym,
  ℕ, ◌%◌, ◌&&◌, ◌*◌, ◌+◌, ◌-◌, ◌/◌, ◌<◌, ◌==◌, ◌∙◌, ◌≡◌, ◌≢◌,
}
use col.Disk.{Disk, bit, to_log}
use col.Inode.{Inode, addr, ndirect, maxfile, put_bytes}
use col.Inode.Words.{word_at-ext}
use col.Inode.Mapped.{block_of, file_byte, IsFile}

module _ (d : Disk) (ip : Inode) (bn b : ℕ) (f : IsFile d ip) (lt : bn < maxfile)
    (at_b : block_of d ip bn ≡ b) (nz : b ≢ 0) (i m : ℕ) (g : ℕ → ℕ) where
  abbrev pub after : Disk
  after = to_log b (put_bytes b i m g d)

  indirect_other : (addr ip ndirect ≢ b)
  indirect_other e = f.layout.apart bn lt (subst (λ x. x ≢ 0) (sym at_b) nz) (at_b ∙ sym e)

  pub put-block_of : (j : ℕ) → block_of after ip j ≡ block_of d ip j
  unfolding put_bytes
  put-block_of j = elim (Bool-cases (ltb j ndirect)) [
    | inl near ↦ rw near refl
    | inr far ↦ elim (Bool-cases (addr ip ndirect == 0)) [
      | inl z ↦ rw (far, z) refl
      | inr n ↦
          let other = indirect_other in
          rw (far, n)
            (word_at-ext (after.bytes (addr ip ndirect)) (d.bytes (addr ip ndirect)) (j - ndirect)
              (λ y. ground arith))
    ]
  ]

  -- The file stays well-formed.
  pub put-IsFile : IsFile after ip
  unfolding put_bytes
  put-IsFile =
      let l = f.layout in
      let q = put-block_of in
      record {
        long = f.long;
        is_bytes = f.is_bytes;
        boot_used = f.boot_used;
        small = f.small;
        layout = record {
          used = λ j lj ne.
              subst (λ x. bit d x ≢ 0) (sym (q j)) (l.used j lj (subst (λ x. x ≢ 0) (q j) ne));
          indirect_used = l.indirect_used;
          distinct = λ j k lj lk ne e.
              l.distinct j k lj lk (subst (λ x. x ≢ 0) (q j) ne) (sym (q j) ∙ e ∙ q k);
          apart = λ j lj ne e. l.apart j lj (subst (λ x. x ≢ 0) (q j) ne) (sym (q j) ∙ e);
        };
      }

  -- And it reads as before, but for the bytes written.
  pub put-file_byte :
      (k : ℕ)
      → k < maxfile * 512
      → file_byte after ip k ≡ (
          if k / 512 == bn && (leb i (k % 512) && ltb (k % 512) (i + m))
          then g (k % 512 - i)
          else file_byte d ip k)
  unfolding put_bytes
  put-file_byte k small =
      let q = put-block_of (k / 512) in
      let inside : k / 512 < maxfile = omega arith in
      let bz : (b == 0) ≡ false = ground arith in
      let self : (b == b) ≡ true = (==_iff b b).1 refl in
      elim (Bool-cases (k / 512 == bn)) [
        | inl e ↦
            let here : block_of d ip (k / 512) ≡ b = ap (block_of d ip) ((==_iff _ _).0 e) ∙ at_b in
            rw (q, here, bz, e, self) refl
        | inr e ↦ elim (Bool-cases (block_of d ip (k / 512) == 0)) [
          | inl z ↦ rw (q, z, e) refl
          | inr n ↦
              let ne : (block_of d ip (k / 512) == b) ≡ false =
                let h = f.layout.distinct (k / 512) bn inside lt in ground (arith, at_b) in
              rw (q, n, e, ne) refl
        ]
      ]
