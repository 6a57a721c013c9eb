-- ===== src/Inode/Extend.antt =====
-- `writei` of fs.c on a file without holes.
use col.Base.{
  ap, Bool, Bool-cases, Option-cases, arith, false, inl, inr, none, refl, some, leb, ltb, min,
  some-injective, subst, sym, true, if◌then◌else◌, ◌&&◌, ◌||◌, ◌⊎◌, ℕ, ◌*◌, ◌+◌, ◌-◌, ◌/◌, ◌%◌, ◌<◌,
  ◌≤◌, ◌∙◌, ◌^◌, ◌≡◌, ◌≢◌,
}
use col.Disk.{bsize, Disk}
use col.Inode.{
  Inode, Store, is_device, maxfile, write_loop, Moved, done, refused, chunk, readi, writei, iupdate,
}
use col.Inode.Mapped.{block_of, file_byte}
use col.Disk.Count.{free_count}
use col.Inode.Bytes.{Written}
use col.Inode.WriteLoop.{blocks_touched, write_loop-Written, write_loop-none, write_loop_over}
use col.Inode.ReadLoop.{file_bytes, chunk_ext}
use col.Inode.Contents.{IsWhole, readi_lem}

-- The file has `n` bytes of `src` from `off` on; it grows where they reach past its end, and then the
-- disk's copy of the inode is brought up to date, which it still is where it was and nothing grew.
pub record Extended (s s' : Store) (ip ip' : Inode) (off n : ℕ) (src : ℕ → ℕ) : Type 0 where
  pub whole : IsWhole s'.disk ip'
  pub size_eq : ip'.size ≡ (if ltb ip.size (off + n) then off + n else ip.size)
  pub bytes :
      (k : ℕ)
      → k < ip'.size
      → file_byte s'.disk ip' k
        ≡ (if leb off k && ltb k (off + n) then src (k - off) else file_byte s.disk ip k)
  pub same_fields : ip' ≡ record ip { size = ip'.size; addrs = ip'.addrs }
  pub synced : s.stored ≡ ip → s'.stored ≡ ip'

module _ (iblock off n : ℕ) (src : ℕ → ℕ) (ip ip1 : Inode) (s : Store) (d1 : Disk)
    (w : IsWhole s.disk ip) (inside : off ≤ ip.size) (fits : off + n ≤ maxfile * bsize)
    (e : write_loop n 0 off n src ip s.disk ≡ some (ip1, d1)) where
  written : Written s.disk d1 ip ip1 0 off n src
  written = write_loop-Written n 0 off n src ip ip1 s.disk d1 w.file (omega arith) e

  same_size : ip1.size ≡ ip.size
  same_size = ap (λ (i : Inode). i.size) written.same_fields

  there :
      (k : ℕ)
      → k < (if ltb ip.size (off + n) then off + n else ip.size)
      → block_of d1 ip1 (k / 512) ≢ 0
  there k lt = elim (Bool-cases (ltb k ip.size)) [
    | inl old ↦
        let ne = w.there k (ground arith) in
        subst (λ x. x ≢ 0) (sym (written.stays (k / 512) ne)) ne
    | inr new ↦ written.mapped k (ground arith) (ground arith)
  ]

  bytes :
      (k : ℕ)
      → k < maxfile * 512
      → file_byte d1 ip1 k
        ≡ (if leb off k && ltb k (off + n) then src (k - off) else file_byte s.disk ip k)
  bytes k lt =
      let z : 0 + (k - off) ≡ k - off = omega arith in
      written.bytes k lt
      ∙ ap (λ i. if leb off k && ltb k (off + n) then src i else file_byte s.disk ip k) z

  with_size : (m : ℕ) → record ip1 { size = m } ≡ record ip { size = m; addrs = ip1.addrs }
  with_size m = ap (λ (i : Inode). record i { size = m }) written.same_fields

  abbrev pub grown : Inode
  grown = record ip1 { size = off + n }

  pub grown-Extended :
      ltb ip.size (off + n) ≡ true
      → Extended s (iupdate iblock grown (record s { disk = d1 })) ip grown off n src
  grown-Extended g = record {
    whole = record {
      file =
          let f = written.file in
          record {
            long = f.long;
            is_bytes = f.is_bytes;
            boot_used = f.boot_used;
            small = f.small;
            layout =
                let l = f.layout in
                record {
                  used = l.used;
                  indirect_used = l.indirect_used;
                  distinct = l.distinct;
                  apart = l.apart;
                };
          };
      within = fits;
      there = λ k lt. there k (rw g lt);
    };
    size_eq = rw g refl;
    bytes = λ k lt. bytes k (omega arith);
    same_fields = with_size (off + n);
    synced = λ _. refl;
  }

  -- Nothing grew, so each block was there.
  same_inode : ltb ip.size (off + n) ≡ false → ip ≡ ip1
  same_inode g =
      let (d', q) =
        write_loop_over n 0 off n src ip s.disk w.file (omega arith) fits
          (λ k lo hi. w.there k (ground arith)) in
      ap (λ (r : Inode × Disk). r.0) (some-injective _ _ (sym q ∙ e))

  pub kept-Extended :
      ltb ip.size (off + n) ≡ false → Extended s (record s { disk = d1 }) ip ip1 off n src
  kept-Extended g = record {
    whole = record {
      file = written.file;
      within = let t = w.within in omega (arith, same_size);
      there = λ k lt. there k (ground (arith, same_size));
    };
    size_eq = rw g same_size;
    bytes = λ k lt. bytes k (let t = w.within in omega (arith, same_size));
    same_fields = with_size ip1.size;
    synced = λ q. q ∙ same_inode g;
  }

-- But for the panic of `log_write`, which Inode/LogRoom.antt adds: a write to a plain file or a directory
-- without holes that begins within the file and stays below the largest size is done, unless fewer blocks are free than two for each block of the file that the
-- range touches. The file has the bytes written at their place then, and its other bytes as before; it
-- has grown to the end of the range if that was behind its end; it has no holes; and the disk's copy
-- of the inode is up to date if it was so before.
pub writei-Extended :
    (has : ℕ → Bool) (iblock off n : ℕ) (src : ℕ → ℕ) (ip : Inode) (s : Store)
    → IsWhole s.disk ip
    → is_device ip.kind ≡ false
    → off ≤ ip.size
    → off + n ≤ maxfile * bsize
    → ((writei has iblock off n src ip s ≡ none) × (free_count s.disk < 2 * blocks_touched off n))
      ⊎ ((r : Inode × Store) × (writei has iblock off n src ip s ≡ some (done n, r.0, r.1))
          × Extended s r.1 ip r.0 off n src)
unfolding writei
writei-Extended has iblock off n src ip s w plain inside fits =
    let a : ltb ip.size off ≡ false = ground arith in
    let b : ltb ((off + n) % 2 ^ 32) off ≡ false = ground arith in
    let c : ltb (maxfile * bsize) (off + n) ≡ false = ground arith in
    elim (Option-cases (write_loop n 0 off n src ip s.disk)) [
      | inl stop ↦
          inl (
            rw (plain, a, b, c, stop) refl,
            write_loop-none n 0 off n src ip s.disk w.file fits stop,
          )
      | inr ((ip1, d1), e) ↦
          let kept = same_size iblock off n src ip ip1 s d1 w inside fits e in
          elim (Bool-cases (ltb ip.size (off + n))) [
            | inl g ↦
                let some_bytes : ltb 0 n ≡ true = ground arith in
                inr (
                  (grown iblock off n src ip ip1 s d1 w inside fits e, _),
                  rw (plain, a, b, c, e, some_bytes, kept, g) refl,
                  grown-Extended iblock off n src ip ip1 s d1 w inside fits e g,
                )
            | inr g ↦
                let no : (ltb 0 n && ltb ip.size (off + n)) ≡ false = ground arith in
                inr (
                  (ip1, record s { disk = d1 }),
                  rw (plain, a, b, c, e, kept, no) refl,
                  kept-Extended iblock off n src ip ip1 s d1 w inside fits e g,
                )
          ]
    ]

-- A write to a plain file or a directory that wraps around, begins past the end of the file or reaches
-- past the largest size is refused, and nothing changes.
pub writei-refused :
    (has : ℕ → Bool) (iblock off n : ℕ) (src : ℕ → ℕ) (ip : Inode) (s : Store)
    → is_device ip.kind ≡ false
    → off < 2 ^ 32
    → n < 2 ^ 32
    → (ltb ip.size off || ltb (maxfile * bsize) (off + n)) ≡ true
    → writei has iblock off n src ip s ≡ some (refused, ip, s)
unfolding writei
writei-refused has iblock off n src ip s plain so sn past = elim (Bool-cases (ltb ip.size off)) [
  | inl a ↦ rw (plain, a) refl
  | inr a ↦
      let c : ltb (maxfile * bsize) (off + n) ≡ true = rw a at past in
      elim (Bool-cases (ltb ((off + n) % 2 ^ 32) off)) [
        | inl b ↦ rw (plain, a, b) refl
        | inr b ↦ rw (plain, a, b, c) refl
      ]
]

-- What a read finds after a write.
read_back :
    (has : ℕ → Bool) (off n : ℕ) (src : ℕ → ℕ) (ip ip' : Inode) (s s' : Store)
    → Extended s s' ip ip' off n src
    → is_device ip.kind ≡ false
    → off ≤ ip.size
    → off + n ≤ maxfile * bsize
    → readi has off n ip' s'.disk ≡ some (done n, chunk src 0 n, ip', s'.disk)
read_back has off n src ip ip' s s' x plain inside fits =
    let size = x.size_eq in
    let plain' : is_device ip'.kind ≡ false =
      ap (λ (i : Inode). is_device i.kind) x.same_fields ∙ plain in
    let ok : (ltb ip'.size off || leb (2 ^ 32) (off + n)) ≡ false = ground arith in
    let whole : min n (ip'.size - off) ≡ n = ground arith in
    let same : file_bytes s'.disk ip' off n ≡ chunk src 0 n =
      chunk_ext (file_byte s'.disk ip') src off 0 n (λ k lt.
        let at = x.bytes (off + k) (ground arith) in
        let t : (leb off (off + k) && ltb (off + k) (off + n)) ≡ true = ground arith in
        let i : off + k - off ≡ 0 + k = omega arith in at ∙ rw (t, i) refl) in
    readi_lem has off n ip' s'.disk x.whole plain' (omega arith) (omega arith)
    ∙ rw (ok, whole, same) refl

-- What was written, by a `writei` that ended with all bytes written, is what a read of the same range
-- gives, and the read changes nothing.
pub writei-readi :
    (has : ℕ → Bool) (iblock off n : ℕ) (src : ℕ → ℕ) (ip ip' : Inode) (s s' : Store)
    → IsWhole s.disk ip
    → is_device ip.kind ≡ false
    → off ≤ ip.size
    → off + n ≤ maxfile * bsize
    → writei has iblock off n src ip s ≡ some (done n, ip', s')
    → readi has off n ip' s'.disk ≡ some (done n, chunk src 0 n, ip', s'.disk)
writei-readi has iblock off n src ip ip' s s' w plain inside fits e =
    elim (writei-Extended has iblock off n src ip s w plain inside fits) [
      | inl (no_block, _) ↦ cc
      | inr (r, got, x) ↦
          let q = some-injective _ _ (sym got ∙ e) in
          subst
            (λ (t : Moved × Inode × Store).
              readi has off n t.1 t.2.disk ≡ some (done n, chunk src 0 n, t.1, t.2.disk))
            q (read_back has off n src ip r.0 s r.1 x plain inside fits)
    ]
