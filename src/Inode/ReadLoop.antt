-- ===== src/Inode/ReadLoop.antt =====
-- The loop of `readi` in fs.c.
use col.Base.{
  ap, ap₂, ==_iff, ==_ne, Bool-cases, arith, false, inl, inr, refl, some, zero, suc, ℕ, List, ◌∷◌,
  ◌++◌, ◌*◌, ◌+◌, ◌-◌, ◌/◌, ◌%◌, ◌<◌, ◌≤◌, ◌==◌, ◌∙◌, ◌≡◌, ◌≢◌,
}
use col.Disk.{bsize, Disk}
use col.Inode.{Inode, maxfile, round, chunk, read_loop}
use col.Inode.Mapped.{block_of, file_byte}
use col.Inode.Fails.{bmap_there}

-- Bytes `off` to `off + n` of a file.
abbrev pub file_bytes : Disk → Inode → (off n : ℕ) → List ℕ
file_bytes d ip off n = chunk (file_byte d ip) off n

pub chunk_ext :
    (f g : ℕ → ℕ) (i j n : ℕ)
    → ((k : ℕ) → k < n → f (i + k) ≡ g (j + k))
    → chunk f i n ≡ chunk g j n
chunk_ext f g i j zero h = refl
chunk_ext f g i j (suc n) h =
    ap₂ ◌∷◌ (ap f (omega arith) ∙ h 0 (omega arith) ∙ ap g (omega arith)) (
      chunk_ext f g (i + 1) (j + 1) n (λ k lt.
        let p : i + 1 + k ≡ i + (k + 1) = omega arith in
        let q : j + (k + 1) ≡ j + 1 + k = omega arith in ap f p ∙ h (k + 1) (omega arith) ∙ ap g q))

chunk-append : (f : ℕ → ℕ) (i m n : ℕ) → chunk f i m ++ chunk f (i + m) n ≡ chunk f i (m + n)
chunk-append f i zero n =
    let e : i + 0 ≡ i = omega arith in let z : 0 + n ≡ n = omega arith in rw (e, z) refl
chunk-append f i (suc m) n =
    let e : i + suc m ≡ i + 1 + m = omega arith in
    let z : suc m + n ≡ suc (m + n) = omega arith in
    rw (e, z) (ap (λ xs. f i ∷ xs) (chunk-append f (i + 1) m n))

-- A part of a block is a part of the file.
part_lem :
    (d : Disk) (ip : Inode) (off left : ℕ)
    → block_of d ip (off / 512) ≢ 0
    → chunk (d.bytes (block_of d ip (off / 512))) (off % 512) (round off left)
      ≡ file_bytes d ip off (round off left)
part_lem d ip off left ne =
    chunk_ext (d.bytes (block_of d ip (off / 512))) (file_byte d ip) (off % 512) off
      (round off left)
      (λ k lt.
        let q : (off + k) / 512 ≡ off / 512 = ground arith in
        let r : (off + k) % 512 ≡ off % 512 + k = ground arith in
        let n : (block_of d ip (off / 512) == 0) ≡ false = ==_ne _ _ ne in rw (q, r, n) refl)

-- The loop reads the bytes of a file whose blocks are there, and changes nothing.
pub read_loop_lem :
    (fuel off left : ℕ) (ip : Inode) (d : Disk)
    → left ≤ fuel
    → off + left ≤ maxfile * 512
    → ((k : ℕ) → off ≤ k → k < off + left → block_of d ip (k / 512) ≢ 0)
    → read_loop fuel off left ip d ≡ some (file_bytes d ip off left, ip, d)
unfolding read_loop
read_loop_lem zero off left ip d le fits there = let z : left ≡ 0 = omega arith in rw z refl
read_loop_lem (suc fuel) off left ip d le fits there = elim (Bool-cases (left == 0)) [
  | inl z ↦ let e : left ≡ 0 = (==_iff left 0).0 z in rw e refl
  | inr nz ↦
      let m = round off left in
      let ne = there off (omega arith) (ground arith) in
      let found = bmap_there (off / bsize) ip d (ground arith) ne in
      let rest =
        read_loop_lem fuel (off + m) (left - m) ip d (ground arith) (ground arith)
          (λ k lo hi. there k (ground arith) (ground arith)) in
      let whole : m + (left - m) ≡ left = ground arith in
      rw
        (
          nz,
          found,
          rest,
          part_lem d ip off left ne,
          chunk-append (file_byte d ip) off m (left - m),
          whole,
        )
        refl
]
