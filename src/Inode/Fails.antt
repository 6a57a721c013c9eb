-- ===== src/Inode/Fails.antt =====
-- When `bmap` of fs.c has to add a block, and when it panics.
use col.Base.{
  some-injective, ◌+◌, ◌≤◌, ==_iff, Bool-cases, Option-cases, arith, false, inl, inr, ltb, none,
  refl, some, subst, true, ℕ, ◌-◌, ◌<◌, ◌==◌, ◌≡◌, ◌≢◌,
}
use col.Disk.{to_log, Disk, balloc}
use col.Disk.Bits.{IsBytes}
use col.Disk.Blocks.{balloc-Allocated}
use col.Disk.Count.{free_count, Allocated-free_count, balloc-none-free_count}
use col.Inode.{
  put_addr, put_word, bmap, Inode, addr, ndirect, nindirect, maxfile, word_at, ensure_addr,
  ensure_entry,
}
use col.Inode.Mapped.{block_of, IsFile}
use col.Inode.Bmap.{ensure_addr_old, indirect}

-- A block that the file has is found, and nothing changes.
pub bmap_there :
    (bn : ℕ) (ip : Inode) (d : Disk)
    → bn < maxfile
    → block_of d ip bn ≢ 0
    → bmap bn ip d ≡ some (block_of d ip bn, ip, d)
unfolding bmap ensure_entry
bmap_there bn ip d lt ne = elim (Bool-cases (ltb bn ndirect)) [
  | inl near ↦
      let at : block_of d ip bn ≡ addr ip bn = rw near refl in
      rw near (ensure_addr_old bn ip d (subst (λ x. x ≢ 0) at ne))
  | inr far ↦
      let in_range : ltb (bn - ndirect) nindirect ≡ true = ground arith in
      let nz : (addr ip ndirect == 0) ≡ false = ground arith in
      let got = ensure_addr_old ndirect ip d (λ e. cc ((==_iff (addr ip ndirect) 0).1 e)) in
      let w : ℕ = word_at (d.bytes (addr ip ndirect)) (bn - ndirect) in
      let at : block_of d ip bn ≡ w = rw (far, nz) refl in
      let there : (w == 0) ≡ false = ground arith in rw (far, in_range, got, nz, there) refl
]

ensure_addr-free_count :
    (i b : ℕ) (ip ip' : Inode) (d d' : Disk)
    → IsBytes d
    → ensure_addr i ip d ≡ some (b, ip', d')
    → free_count d ≤ free_count d' + 1
unfolding ensure_addr
ensure_addr-free_count i b ip ip' d d' v e = elim (Bool-cases (addr ip i == 0)) [
  | inr nz ↦
      let q : some (addr ip i, ip, d) ≡ some (b, ip', d') = rw nz at e in
      subst (λ r. free_count d ≤ free_count r.2 + 1) (some-injective _ _ q) (omega arith)
  | inl z ↦ elim (Option-cases (balloc d)) [
    | inl q ↦ cc (rw (z, q) at e)
    | inr ((x, d1), got) ↦
        let q : some (x, put_addr i x ip, d1) ≡ some (b, ip', d') = rw (z, got) at e in
        let c = Allocated-free_count d d1 x (balloc-Allocated d d1 x v got) in
        subst (λ r. free_count d ≤ free_count r.2 + 1) (some-injective _ _ q) (omega (arith, c))
  ]
]

ensure_entry-free_count :
    (blk i b : ℕ) (ip ip' : Inode) (d d' : Disk)
    → IsBytes d
    → ensure_entry blk i ip d ≡ some (b, ip', d')
    → free_count d ≤ free_count d' + 1
unfolding ensure_entry put_word
ensure_entry-free_count blk i b ip ip' d d' v e =
    let w : ℕ = word_at (d.bytes blk) i in
    elim (Bool-cases (w == 0)) [
      | inr nz ↦
          let q : some (w, ip, d) ≡ some (b, ip', d') = rw nz at e in
          subst (λ r. free_count d ≤ free_count r.2 + 1) (some-injective _ _ q) (omega arith)
      | inl z ↦ elim (Option-cases (balloc d)) [
        | inl q ↦ cc (rw (z, q) at e)
        | inr ((x, d1), got) ↦
            let q : some (x, ip, to_log blk (put_word blk i x d1)) ≡ some (b, ip', d') =
              rw (z, got) at e in
            let c = Allocated-free_count d d1 x (balloc-Allocated d d1 x v got) in
            subst (λ r. free_count d ≤ free_count r.2 + 1) (some-injective _ _ q) (omega (arith, c))
      ]
    ]

-- `bmap` takes two free blocks at the most.
pub bmap-free_count :
    (bn b : ℕ) (ip ip' : Inode) (d d' : Disk)
    → IsFile d ip
    → bmap bn ip d ≡ some (b, ip', d')
    → free_count d ≤ free_count d' + 2
unfolding bmap
bmap-free_count bn b ip ip' d d' f e = elim (Bool-cases (ltb bn ndirect)) [
  | inl near ↦
      let c = ensure_addr-free_count bn b ip ip' d d' f.is_bytes (rw near at e) in omega (arith, c)
  | inr far ↦ elim (Bool-cases (ltb (bn - ndirect) nindirect)) [
    | inr out ↦ cc (rw (far, out) at e)
    | inl in_range ↦ elim (Option-cases (ensure_addr ndirect ip d)) [
      | inl no_block ↦ cc (rw (far, in_range, no_block) at e)
      | inr ((blk, ip1, d1), got) ↦
          let c = ensure_addr-free_count ndirect blk ip ip1 d d1 f.is_bytes got in
          let g =
            ensure_entry-free_count blk (bn - ndirect) b ip1 ip' d1 d'
              (indirect blk ip ip1 d d1 f got).file.is_bytes (rw (far, in_range, got) at e) in
          omega (arith, c, g)
    ]
  ]
]

ensure_addr-none : (i : ℕ) (ip : Inode) (d : Disk) → ensure_addr i ip d ≡ none → balloc d ≡ none
unfolding ensure_addr
ensure_addr-none i ip d e = elim (Bool-cases (addr ip i == 0)) [
  | inr nz ↦ cc (rw nz at e)
  | inl z ↦ elim (Option-cases (balloc d)) [
    | inl q ↦ q
    | inr ((x, d1), got) ↦ cc (rw (z, got) at e)
  ]
]

ensure_entry-none :
    (blk i : ℕ) (ip : Inode) (d : Disk) → ensure_entry blk i ip d ≡ none → balloc d ≡ none
unfolding ensure_entry
ensure_entry-none blk i ip d e = elim (Bool-cases (word_at (d.bytes blk) i == 0)) [
  | inr nz ↦ cc (rw nz at e)
  | inl z ↦ elim (Option-cases (balloc d)) [
    | inl q ↦ q
    | inr ((x, d1), got) ↦ cc (rw (z, got) at e)
  ]
]

-- In range, `bmap` panics only where fewer than two blocks are free.
pub bmap-none :
    (bn : ℕ) (ip : Inode) (d : Disk)
    → IsFile d ip
    → bn < maxfile
    → bmap bn ip d ≡ none
    → free_count d < 2
unfolding bmap
bmap-none bn ip d f lt e = elim (Bool-cases (ltb bn ndirect)) [
  | inl near ↦
      let z = balloc-none-free_count d (ensure_addr-none bn ip d (rw near at e)) in omega (arith, z)
  | inr far ↦
      let in_range : ltb (bn - ndirect) nindirect ≡ true = ground arith in
      elim (Option-cases (ensure_addr ndirect ip d)) [
        | inl q ↦
            let z = balloc-none-free_count d (ensure_addr-none ndirect ip d q) in omega (arith, z)
        | inr ((blk, ip1, d1), got) ↦
            let c = ensure_addr-free_count ndirect blk ip ip1 d d1 f.is_bytes got in
            let z =
              balloc-none-free_count d1
                (ensure_entry-none blk (bn - ndirect) ip1 d1 (rw (far, in_range, got) at e)) in
            omega (arith, c, z)
      ]
]
