-- ===== src/Inode/Growth.antt =====
-- The three ways in which `bmap` of fs.c adds a block to a file.
use col.Base.{
  ◌%◌, sym, ◌/◌, length-set, lt→ltb, ap₂, ◌-◌, ==_iff, get_or-set_ne, ◌^◌, ap, ◌+◌, refl, true,
  false, Bool-cases, arith, if◌then◌else◌, inl, inr, length, ltb, subst, ℕ, ◌*◌, ◌<◌, ◌==◌, ◌∙◌,
  ◌≡◌, ◌≢◌,
}
use col.Disk.{Disk, bit, to_log}
use col.Disk.Blocks.{Allocated}
use col.Inode.{nindirect, Inode, addr, put_addr, ndirect, maxfile, word_at, put_word}
use col.Inode.Words.{addr-put_addr, word_at-put_word, word_at-ext}
use col.Inode.Mapped.{
  Grown-IsLayout, Grown-indirect, Grown-byte, block_of, file_byte, IsLayout, IsFile, Grown,
}

-- `bmap` gives block `b` for block `bn` of the file.
pub record Gives (d d' : Disk) (ip ip' : Inode) (bn b : ℕ) : Type 0 where
  pub file : IsFile d' ip'
  pub answer : (block_of d' ip' bn ≡ b) × (b ≢ 0)
  pub same_bytes : (k : ℕ) → k < maxfile * 512 → file_byte d' ip' k ≡ file_byte d ip k
  pub stays : (j : ℕ) → block_of d ip j ≢ 0 → block_of d' ip' j ≡ block_of d ip j
  pub same_size : d'.size ≡ d.size
  pub same_fields : ip' ≡ record ip { addrs = ip'.addrs }

-- A block that was there is not the one that was added.
stays_by :
    (old new x j bn was : ℕ)
    → new ≡ (if j == bn then x else old)
    → was ≡ 0
    → (j ≡ bn → old ≡ was)
    → old ≢ 0
    → new ≡ old
stays_by old new x j bn was e z same ne = ground arith

Allocated-Grown : (d d' : Disk) (x I : ℕ) → bit d 0 ≢ 0 → Allocated d d' x → Grown d d' x I
Allocated-Grown d d' x I boot a = record {
  fresh = a.found.free;
  nonzero = λ e. boot (subst (λ b. bit d b ≡ 0) e a.found.free);
  marked = a.marked;
  zeroed = a.zeroed;
  others = λ y i ne apart. a.others y i ne;
}

-- The parts of `IsFile` that do not speak of the layout.
Allocated-IsFile :
    (d d' : Disk) (x : ℕ) (ip ip' : Inode)
    → IsFile d ip
    → Allocated d d' x
    → length ip'.addrs ≡ length ip.addrs
    → IsLayout d' (block_of d' ip') (addr ip' ndirect)
    → IsFile d' ip'
Allocated-IsFile d d' x ip ip' f a e l = record {
  long = e ∙ f.long;
  is_bytes = a.is_bytes;
  boot_used = let m = a.marked 0 in let b = f.boot_used in ground arith;
  small = let s = a.size_eq in let t = f.small in omega arith;
  layout = l;
}

module _ (d d' : Disk) (x bn : ℕ) (ip : Inode) (f : IsFile d ip) (a : Allocated d d' x) where
  indirect-ne : addr ip ndirect ≢ 0 → addr ip ndirect ≢ x
  indirect-ne ne e = f.layout.indirect_used ne (ap (bit d) e ∙ a.found.free)

  kept_word :
      (i : ℕ)
      → addr ip ndirect ≢ 0
      → word_at (d'.bytes (addr ip ndirect)) i ≡ word_at (d.bytes (addr ip ndirect)) i
  kept_word i ne =
      word_at-ext (d'.bytes (addr ip ndirect)) (d.bytes (addr ip ndirect)) i
        (λ y. a.others (addr ip ndirect) y (indirect-ne ne))

  -- A new direct block.
  direct_block :
      (j : ℕ)
      → bn < ndirect
      → block_of d' (put_addr bn x ip) j ≡ (if j == bn then x else block_of d ip j)
  direct_block j lt =
      let long = f.long in
      elim (Bool-cases (ltb j ndirect)) [
        | inl near ↦ rw near (addr-put_addr bn j x ip (omega arith))
        | inr far ↦
            let jf : (j == bn) ≡ false = ground arith in
            let q : addr (put_addr bn x ip) ndirect ≡ addr ip ndirect =
              get_or-set_ne ip.addrs bn ndirect x 0 (λ e. omega arith) in
            elim (Bool-cases (addr ip ndirect == 0)) [
              | inl z ↦ rw (far, jf, q, z) refl
              | inr nz ↦ rw (far, jf, q, nz) (kept_word (j - ndirect) (ground arith))
            ]
      ]

  -- A new indirect block.
  pub indirect_block :
      (j : ℕ) → addr ip ndirect ≡ 0 → block_of d' (put_addr ndirect x ip) j ≡ block_of d ip j
  indirect_block j none_yet =
      let long = f.long in
      let put = addr-put_addr ndirect ndirect x ip (omega arith) in
      let z : (addr ip ndirect == 0) ≡ true = (==_iff _ _).1 none_yet in
      let nz : (x == 0) ≡ false =
        let n = (Allocated-Grown d d' x 0 f.boot_used a).nonzero in ground arith in
      elim (Bool-cases (ltb j ndirect)) [
        | inl near ↦ rw near (get_or-set_ne ip.addrs ndirect j x 0 (λ e. ground arith))
        | inr far ↦
            let q : addr (put_addr ndirect x ip) ndirect ≡ x = put in
            rw (far, q, nz, z)
              (omega (
                arith,
                a.zeroed (4 * (j - ndirect)),
                a.zeroed (4 * (j - ndirect) + 1),
                a.zeroed (4 * (j - ndirect) + 2),
                a.zeroed (4 * (j - ndirect) + 3),
              ))
      ]

  -- A new entry of the indirect block.
  abbrev pub entered : ℕ → Disk
  entered i = to_log (addr ip ndirect) (put_word (addr ip ndirect) i x d')

  entry_block :
      (i j : ℕ)
      → addr ip ndirect ≢ 0
      → block_of (entered i) ip j ≡ (if j == i + ndirect then x else block_of d ip j)
  entry_block i j ne =
      let nz : (addr ip ndirect == 0) ≡ false = ground arith in
      let fits : x < 2 ^ 32 = let w = a.found.within in let s = f.small in omega arith in
      elim (Bool-cases (ltb j ndirect)) [
        | inl near ↦ let jf : (j == i + ndirect) ≡ false = ground arith in rw (near, jf) refl
        | inr far ↦
            let e : (j - ndirect == i) ≡ (j == i + ndirect) = ground arith in
            rw (far, nz)
              (word_at-put_word (addr ip ndirect) i x (j - ndirect) d' fits
                ∙ ap₂ (λ t w. if t then x else w) e (kept_word (j - ndirect) ne))
      ]

  indirect_apart : addr ip ndirect ≢ x
  indirect_apart e = elim (Bool-cases (addr ip ndirect == 0)) [
    | inl z ↦ let n = (Allocated-Grown d d' x 0 f.boot_used a).nonzero in ground arith
    | inr nz ↦ indirect-ne (ground arith) e
  ]

  pub direct-Gives : bn < ndirect → addr ip bn ≡ 0 → Gives d d' ip (put_addr bn x ip) bn x
  direct-Gives lt none_yet =
      let g = Allocated-Grown d d' x (addr ip ndirect) f.boot_used a in
      let long = f.long in
      let near : ltb bn ndirect ≡ true = lt→ltb bn ndirect lt in
      let self : (bn == bn) ≡ true = (==_iff bn bn).1 refl in
      let old : block_of d ip bn ≡ 0 = rw near none_yet in
      let new : block_of d' (put_addr bn x ip) bn ≡ x = direct_block bn lt ∙ rw self refl in
      let kept : addr (put_addr bn x ip) ndirect ≡ addr ip ndirect =
        get_or-set_ne ip.addrs bn ndirect x 0 (λ e. omega arith) in
      record {
        file = Allocated-IsFile d d' x ip (put_addr bn x ip) f a (length-set ip.addrs bn x) (
            subst (IsLayout d' (block_of d' (put_addr bn x ip))) (sym kept) (
              Grown-IsLayout d d' x (addr ip ndirect) g (block_of d ip)
                (block_of d' (put_addr bn x ip)) f.layout bn (λ j _. direct_block j lt)
                indirect_apart));
        answer = (new, g.nonzero);
        same_bytes = λ k small.
            Grown-byte d d' x (addr ip ndirect) g (block_of d ip) (block_of d' (put_addr bn x ip))
              f.layout (k / 512) (k % 512) (omega arith)
              (elim (Bool-cases (k / 512 == bn)) [
                | inl e ↦
                    let at : k / 512 ≡ bn = (==_iff _ _).0 e in
                    inr (ap (block_of d ip) at ∙ old, ap (block_of d' (put_addr bn x ip)) at ∙ new)
                | inr e ↦ inl (direct_block (k / 512) lt ∙ rw e refl)
              ]);
        stays = λ j.
            stays_by (block_of d ip j) (block_of d' (put_addr bn x ip) j) x j bn (block_of d ip bn)
              (direct_block j lt) old (ap (block_of d ip));
        same_size = a.size_eq;
        same_fields = refl;
      }

  -- What the file is after its indirect block is made.
  pub indirect-IsFile :
      addr ip ndirect ≡ 0
      → IsFile d' (put_addr ndirect x ip) × (addr (put_addr ndirect x ip) ndirect ≡ x) × (x ≢ 0)
  indirect-IsFile none_yet =
      let g = Allocated-Grown d d' x (addr ip ndirect) f.boot_used a in
      let long = f.long in
      let put : addr (put_addr ndirect x ip) ndirect ≡ x =
        addr-put_addr ndirect ndirect x ip (omega arith) in
      (
        Allocated-IsFile d d' x ip (put_addr ndirect x ip) f a (length-set ip.addrs ndirect x) (
            subst (IsLayout d' (block_of d' (put_addr ndirect x ip))) (sym put) (
              Grown-indirect d d' x (addr ip ndirect) g (block_of d ip)
                (block_of d' (put_addr ndirect x ip)) f.layout (λ j _. indirect_block j none_yet))),
        put,
        g.nonzero,
      )

  pub indirect_bytes :
      (k : ℕ)
      → k < maxfile * 512
      → addr ip ndirect ≡ 0
      → file_byte d' (put_addr ndirect x ip) k ≡ file_byte d ip k
  indirect_bytes k small none_yet =
      Grown-byte d d' x (addr ip ndirect) (Allocated-Grown d d' x (addr ip ndirect) f.boot_used a)
        (block_of d ip) (block_of d' (put_addr ndirect x ip)) f.layout (k / 512) (k % 512)
        (omega arith) (inl (indirect_block (k / 512) none_yet))

  entered-Grown : (i : ℕ) → addr ip ndirect ≢ 0 → Grown d (entered i) x (addr ip ndirect)
  unfolding put_word
  entered-Grown i ne =
      let g = Allocated-Grown d d' x (addr ip ndirect) f.boot_used a in
      record {
        fresh = g.fresh;
        nonzero = g.nonzero;
        marked = g.marked;
        zeroed = λ y. let z = g.zeroed y in let n = indirect-ne ne in ground arith;
        others = λ b y nx ni. let z = g.others b y nx ni in ground arith;
      }

  pub entry-Gives :
      (i : ℕ)
      → addr ip ndirect ≢ 0
      → i < nindirect
      → word_at (d.bytes (addr ip ndirect)) i ≡ 0
      → Gives d (entered i) ip ip (i + ndirect) x
  unfolding put_word
  entry-Gives i ne lt none_yet =
      let g = entered-Grown i ne in
      let far : ltb (i + ndirect) ndirect ≡ false = ground arith in
      let nz : (addr ip ndirect == 0) ≡ false = ground arith in
      let self : (i + ndirect == i + ndirect) ≡ true = (==_iff _ _).1 refl in
      let index : i + ndirect - ndirect ≡ i = omega arith in
      let old : block_of d ip (i + ndirect) ≡ 0 = rw (far, nz, index) none_yet in
      let new : block_of (entered i) ip (i + ndirect) ≡ x =
        entry_block i (i + ndirect) ne ∙ rw self refl in
      record {
        file = record {
          long = f.long;
          is_bytes = a.is_bytes;
          boot_used = let m = a.marked 0 in let b = f.boot_used in ground arith;
          small = let s = a.size_eq in let t = f.small in omega arith;
          layout =
              Grown-IsLayout d (entered i) x (addr ip ndirect) g (block_of d ip)
                (block_of (entered i) ip) f.layout (i + ndirect) (λ j _. entry_block i j ne)
                indirect_apart;
        };
        answer = (new, g.nonzero);
        same_bytes = λ k small.
            Grown-byte d (entered i) x (addr ip ndirect) g (block_of d ip) (block_of (entered i) ip)
              f.layout (k / 512) (k % 512) (omega arith)
              (elim (Bool-cases (k / 512 == i + ndirect)) [
                | inl e ↦
                    let at : k / 512 ≡ i + ndirect = (==_iff _ _).0 e in
                    inr (ap (block_of d ip) at ∙ old, ap (block_of (entered i) ip) at ∙ new)
                | inr e ↦ inl (entry_block i (k / 512) ne ∙ rw e refl)
              ]);
        stays = λ j.
            stays_by (block_of d ip j) (block_of (entered i) ip j) x j (i + ndirect)
              (block_of d ip (i + ndirect)) (entry_block i j ne) old (ap (block_of d ip));
        same_size = a.size_eq;
        same_fields = refl;
      }
