-- ===== src/Inode/Mapped.antt =====
-- Which blocks hold the contents of an inode, and what a file is as bytes.
use col.Base.{
  sym, subst, ◌⊎◌, refl, false, Bool-cases, ap, arith, if◌then◌else◌, inl, inr, length, ltb, ℕ, ◌%◌,
  ◌+◌, ◌-◌, ◌/◌, ◌<◌, ◌==◌, ◌^◌, ◌∙◌, ◌≡◌, ◌≢◌, ◌≤◌,
}
use col.Disk.{Disk, bit}
use col.Disk.Bits.{IsBytes}
use col.Inode.{Inode, addr, ndirect, maxfile, word_at}

-- The block that has block `bn` of the file, or 0 where there is none.
abbrev pub block_of : Disk → Inode → ℕ → ℕ
block_of d ip bn =
    if ltb bn ndirect
    then addr ip bn
    else if addr ip ndirect == 0
    then 0
    else word_at (d.bytes (addr ip ndirect)) (bn - ndirect)

-- Byte `k` of the file, 0 where there is no block.
abbrev pub block_byte : Disk → ℕ → ℕ → ℕ
block_byte d b i = if b == 0 then 0 else d.bytes b i

abbrev pub file_byte : Disk → Inode → ℕ → ℕ
file_byte d ip k = block_byte d (block_of d ip (k / 512)) (k % 512)

-- Blocks `B` with the indirect block `I` are in use, and no two are the same.
pub record IsLayout (d : Disk) (B : ℕ → ℕ) (I : ℕ) : Type 0 where
  pub used : (i : ℕ) → i < maxfile → B i ≢ 0 → bit d (B i) ≢ 0
  pub indirect_used : I ≢ 0 → bit d I ≢ 0
  pub distinct : (i j : ℕ) → i < maxfile → j < maxfile → B i ≢ 0 → B i ≡ B j → i ≡ j
  pub apart : (i : ℕ) → i < maxfile → B i ≢ 0 → B i ≢ I

-- A file on a disk: block 0, the boot block, is in use, and block numbers fit a word.
pub record IsFile (d : Disk) (ip : Inode) : Type 0 where
  pub long : length ip.addrs ≡ ndirect + 1
  pub is_bytes : IsBytes d
  pub boot_used : bit d 0 ≢ 0
  pub small : d.size ≤ 2 ^ 32
  pub layout : IsLayout d (block_of d ip) (addr ip ndirect)

-- Block `x` was free and is marked and zeroed; but for it and the block `I` nothing is written.
pub record Grown (d d' : Disk) (x I : ℕ) : Type 0 where
  pub fresh : bit d x ≡ 0
  pub nonzero : x ≢ 0
  pub marked : (y : ℕ) → bit d' y ≡ (if y == x then 1 else bit d y)
  pub zeroed : (i : ℕ) → d'.bytes x i ≡ 0
  pub others : (y i : ℕ) → y ≢ x → y ≢ I → d'.bytes y i ≡ d.bytes y i

module _ (d d' : Disk) (x I : ℕ) (g : Grown d d' x I) where
  pub used-ne : (y : ℕ) → bit d y ≢ 0 → y ≢ x
  used-ne y u e = u (ap (bit d) e ∙ g.fresh)

  pub still_used : (y : ℕ) → bit d y ≢ 0 → bit d' y ≢ 0
  still_used y u = let m = g.marked y in ground arith

  pub now_used : bit d' x ≢ 0
  now_used = let m = g.marked x in ground arith

  module _ (B B' : ℕ → ℕ) (l : IsLayout d B I) where
    pub old-ne : (j : ℕ) → j < maxfile → B j ≢ 0 → B j ≢ x
    old-ne j lt ne = used-ne (B j) (l.used j lt ne)

    -- The new block is block `bn` of the file, which had none.
    pub Grown-IsLayout :
        (bn : ℕ)
        → ((j : ℕ) → j < maxfile → B' j ≡ (if j == bn then x else B j))
        → I ≢ x
        → IsLayout d' B' I
    Grown-IsLayout bn same apart = record {
      used = λ i lt ne. elim (Bool-cases (i == bn)) [
        | inl e ↦
            let q : B' i ≡ x = same i lt ∙ rw e refl in subst (λ b. bit d' b ≢ 0) (sym q) now_used
        | inr e ↦
            let q : B' i ≡ B i = same i lt ∙ rw e refl in
            subst (λ b. bit d' b ≢ 0) (sym q)
              (still_used (B i) (l.used i lt (subst (λ b. b ≢ 0) q ne)))
      ];
      indirect_used = λ ne. still_used I (l.indirect_used ne);
      distinct = λ i j li lj ne e.
          ground (arith, same i li, same j lj, l.distinct i j li lj, old-ne i li, old-ne j lj);
      apart = λ i lt ne e. ground (arith, same i lt, l.apart i lt);
    }

    -- The new block is the indirect block, of which there was none.
    pub Grown-indirect : ((j : ℕ) → j < maxfile → B' j ≡ B j) → IsLayout d' B' x
    Grown-indirect same = record {
      used = λ i lt ne.
          subst (λ b. bit d' b ≢ 0) (sym (same i lt))
            (still_used (B i) (l.used i lt (subst (λ b. b ≢ 0) (same i lt) ne)));
      indirect_used = λ ne. now_used;
      distinct = λ i j li lj ne e. ground (arith, same i li, same j lj, l.distinct i j li lj);
      apart = λ i lt ne e. ground (arith, same i lt, old-ne i lt);
    }

    -- The bytes of the file stay, when each block of it stays, or was missing and is the new one.
    pub Grown-byte :
        (j i : ℕ)
        → j < maxfile
        → (B' j ≡ B j) ⊎ ((B j ≡ 0) × (B' j ≡ x))
        → block_byte d' (B' j) i ≡ block_byte d (B j) i
    Grown-byte j i lt (inl e) = elim (Bool-cases (B j == 0)) [
      | inl z ↦ rw (e, z) refl
      | inr nz ↦
          rw (e, nz) (g.others (B j) i (old-ne j lt (ground arith)) (l.apart j lt (ground arith)))
    ]
    Grown-byte j i lt (inr (z, e)) =
        let n : (x == 0) ≡ false = let ne = g.nonzero in ground arith in rw (e, n, z) (g.zeroed i)
