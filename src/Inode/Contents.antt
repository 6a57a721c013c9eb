-- ===== src/Inode/Contents.antt =====
-- Files without holes, and `readi` of fs.c on them.
use col.Base.{
  Bool, Bool-cases, arith, false, inl, inr, refl, some, leb, ltb, min, true, if◌then◌else◌, ◌||◌, ℕ,
  [], ◌*◌, ◌+◌, ◌-◌, ◌/◌, ◌%◌, ◌<◌, ◌≤◌, ◌^◌, ◌≡◌, ◌≢◌,
}
use col.Disk.{bsize, Disk}
use col.Inode.{Inode, is_device, maxfile, done, refused, readi}
use col.Inode.Mapped.{block_of, IsFile}
use col.Inode.ReadLoop.{file_bytes, read_loop_lem}

-- A file that has a block for each of its bytes, and is not too long.
pub record IsWhole (d : Disk) (ip : Inode) : Type 0 where
  pub file : IsFile d ip
  pub within : ip.size ≤ maxfile * bsize
  pub there : (k : ℕ) → k < ip.size → block_of d ip (k / 512) ≢ 0

-- A call of `readi` on a plain file or a directory without holes always ends, without a panic, and changes
-- neither the inode nor the disk. It is refused exactly when the range begins past the end of the file or
-- its end wraps around 2 ^ 32. Otherwise its answer is the number of bytes asked for, or of those up to the
-- end of the file where these are fewer, and it gives just these bytes of the file, in order.
pub readi_lem :
    (has : ℕ → Bool) (off n : ℕ) (ip : Inode) (d : Disk)
    → IsWhole d ip
    → is_device ip.kind ≡ false
    → off < 2 ^ 32
    → n < 2 ^ 32
    → readi has off n ip d ≡ (
        if ltb ip.size off || leb (2 ^ 32) (off + n)
        then some (refused, [], ip, d)
        else some
            (done (min n (ip.size - off)), file_bytes d ip off (min n (ip.size - off)), ip, d))
unfolding readi
readi_lem has off n ip d w plain so sn = elim (Bool-cases (ltb ip.size off)) [
  | inl past ↦ rw (plain, past) refl
  | inr inside ↦ elim (Bool-cases (leb (2 ^ 32) (off + n))) [
    | inl wraps ↦
        let t : ltb ((off + n) % 2 ^ 32) off ≡ true = ground arith in
        rw (plain, inside, wraps, t) refl
    | inr fits ↦
        let t : ltb ((off + n) % 2 ^ 32) off ≡ false = ground arith in
        let m = min n (ip.size - off) in
        let e : (if ltb ip.size (off + n) then ip.size - off else n) ≡ m = ground arith in
        let s = w.within in
        let got =
          read_loop_lem m off m ip d (omega arith) (ground arith)
            (λ k lo hi. w.there k (ground arith)) in
        rw (plain, inside, fits, t, e, got, e) refl
  ]
]
