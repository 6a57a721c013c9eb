-- ===== src/Inode/Words.antt =====
-- Words of an indirect block.
use col.Base.{
  get_or-set_ne, get_or-set_self, length, ==_iff, Bool-cases, arith, if◌then◌else◌, inl, inr, refl,
  true, ℕ, ◌%◌, ◌*◌, ◌+◌, ◌/◌, ◌<◌, ◌==◌, ◌^◌, ◌≡◌, ◌≢◌,
}
use col.Disk.{Disk}
use col.Inode.{Inode, addr, put_addr, word_at, byte_of, put_word}

byte_of_lem :
    (v : ℕ)
    → v < 2 ^ 32
    → byte_of v 0 + 256 * byte_of v 1 + 65536 * byte_of v 2 + 16777216 * byte_of v 3 ≡ v
byte_of_lem v h = omega arith

-- A word reads as it was written, and the other words of the block as before.
pub word_at-put_word :
    (blk i v j : ℕ) (d : Disk)
    → v < 2 ^ 32
    → word_at ((put_word blk i v d).bytes blk) j ≡ (if j == i then v else word_at (d.bytes blk) j)
unfolding put_word
word_at-put_word blk i v j d h =
    let self : (blk == blk) ≡ true = (==_iff blk blk).1 refl in
    let q0 : (4 * j / 4 == i) ≡ (j == i) = ground arith in
    let q1 : ((4 * j + 1) / 4 == i) ≡ (j == i) = ground arith in
    let q2 : ((4 * j + 2) / 4 == i) ≡ (j == i) = ground arith in
    let q3 : ((4 * j + 3) / 4 == i) ≡ (j == i) = ground arith in
    let r0 : 4 * j % 4 ≡ 0 = omega arith in
    let r1 : (4 * j + 1) % 4 ≡ 1 = omega arith in
    let r2 : (4 * j + 2) % 4 ≡ 2 = omega arith in
    let r3 : (4 * j + 3) % 4 ≡ 3 = omega arith in
    elim (Bool-cases (j == i)) [
      | inl e ↦ rw (self, q0, q1, q2, q3, e, r0, r1, r2, r3) (byte_of_lem v h)
      | inr e ↦ rw (self, q0, q1, q2, q3, e) refl
    ]

-- The other blocks do not change.
pub put_word-bytes :
    (blk i v x y : ℕ) (d : Disk) → x ≢ blk → (put_word blk i v d).bytes x y ≡ d.bytes x y
unfolding put_word
put_word-bytes blk i v x y d ne = ground arith

pub word_at-ext : (f g : ℕ → ℕ) (i : ℕ) → ((y : ℕ) → f y ≡ g y) → word_at f i ≡ word_at g i
word_at-ext f g i h = omega (arith, h (4 * i), h (4 * i + 1), h (4 * i + 2), h (4 * i + 3))

pub addr-put_addr :
    (i j x : ℕ) (ip : Inode)
    → i < length ip.addrs
    → addr (put_addr i x ip) j ≡ (if j == i then x else addr ip j)
addr-put_addr i j x ip lt = elim (Bool-cases (j == i)) [
  | inl e ↦
      let same : j ≡ i = (==_iff j i).0 e in
      rw same (ground (arith, get_or-set_self ip.addrs i x 0 lt))
  | inr e ↦ rw e (get_or-set_ne ip.addrs i j x 0 (λ q. ground arith))
]
