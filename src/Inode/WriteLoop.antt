-- ===== src/Inode/WriteLoop.antt =====
-- The loop of `writei` in fs.c, to its end.
use col.Base.{
  if◌then◌else◌, ==_iff, Bool-cases, Option-cases, arith, false, inl, inr, none, refl, some,
  some-injective, subst, sym, zero, suc, ℕ, ◌*◌, ◌+◌, ◌-◌, ◌/◌, ◌%◌, ◌<◌, ◌≤◌, ◌==◌, ◌≡◌, ◌≢◌,
}
use col.Disk.{bsize, Disk, to_log}
use col.Inode.{bmap, Inode, maxfile, round, put_bytes, write_loop}
use col.Inode.Mapped.{block_of, IsFile}
use col.Inode.Bmap.{bmap-Gives}
use col.Inode.Put.{put-IsFile, put-block_of}
use col.Disk.Count.{free_count}
use col.Inode.Fails.{bmap_there, bmap-none, bmap-free_count}
use col.Inode.Bytes.{Written, nothing-Written, round-Written, Written-then}

-- The disk after one round.
abbrev pub after_round : (b at off left : ℕ) → (ℕ → ℕ) → Disk → Disk
after_round b at off left src d =
    to_log b (put_bytes b (off % bsize) (round off left) (λ k. src (at + k)) d)

round_le :
    (off left fuel : ℕ) → left ≤ suc fuel → (left == 0) ≡ false → left - round off left ≤ fuel
round_le off left fuel le ne = ground arith

-- When the loop ends, it has written its bytes.
pub write_loop-Written :
    (fuel at off left : ℕ) (src : ℕ → ℕ) (ip ip' : Inode) (d d' : Disk)
    → IsFile d ip
    → left ≤ fuel
    → write_loop fuel at off left src ip d ≡ some (ip', d')
    → Written d d' ip ip' at off left src
unfolding write_loop
write_loop-Written zero at off left src ip ip' d d' f le e =
    let z : 0 ≡ left = omega arith in
    subst (λ r. Written d r.1 ip r.0 at off left src) (some-injective _ _ e)
      (subst (λ n. Written d d ip ip at off n src) z (nothing-Written d ip at off src f))
write_loop-Written (suc fuel) at off left src ip ip' d d' f le e = elim (Bool-cases (left == 0)) [
  | inl z ↦
      let q : some (ip, d) ≡ some (ip', d') = rw z at e in
      subst (λ r. Written d r.1 ip r.0 at off left src) (some-injective _ _ q)
        (subst (λ n. Written d d ip ip at off n src) (sym ((==_iff left 0).0 z))
          (nothing-Written d ip at off src f))
  | inr nz ↦ elim (Option-cases (bmap (off / bsize) ip d)) [
    | inl stop ↦ cc (rw (nz, stop) at e)
    | inr ((b, ip1, d1), got) ↦
        let m = round off left in
        let (g, lt) = bmap-Gives (off / bsize) b ip ip1 d d1 f got in
        let v = round-Written d d1 ip ip1 at off left b src g lt in
        let step : write_loop fuel (at + m) (off + m) (left - m) src ip1
              (after_round b at off left src d1)
            ≡ some (ip', d') =
          rw (nz, got) at e in
        Written-then d (after_round b at off left src d1) d' ip ip1 ip' at off m left src
          (omega arith) v
          (write_loop-Written fuel (at + m) (off + m) (left - m) src ip1 ip'
            (after_round b at off left src d1) d' v.file (round_le off left fuel le nz) step)
  ]
]

-- The blocks of a file that a range touches.
abbrev pub blocks_touched : (off left : ℕ) → ℕ
blocks_touched off left = if left == 0 then 0 else (off % bsize + left - 1) / bsize + 1

pub touched_less :
    (off left : ℕ)
    → (left == 0) ≡ false
    → blocks_touched (off + round off left) (left - round off left) + 1 ≤ blocks_touched off left
touched_less off left ne = ground arith

after_round-free_count :
    (b at off left : ℕ) (src : ℕ → ℕ) (d : Disk)
    → free_count (after_round b at off left src d) ≡ free_count d
unfolding put_bytes
after_round-free_count b at off left src d = refl

-- Within the largest file, the loop panics only where fewer blocks are free than two for each
-- block that it touches.
pub write_loop-none :
    (fuel at off left : ℕ) (src : ℕ → ℕ) (ip : Inode) (d : Disk)
    → IsFile d ip
    → off + left ≤ maxfile * bsize
    → write_loop fuel at off left src ip d ≡ none
    → free_count d < 2 * blocks_touched off left
unfolding write_loop
write_loop-none zero at off left src ip d f fits e = cc
write_loop-none (suc fuel) at off left src ip d f fits e = elim (Bool-cases (left == 0)) [
  | inl z ↦ cc (rw z at e)
  | inr nz ↦
      let less = touched_less off left nz in
      elim (Option-cases (bmap (off / bsize) ip d)) [
        | inl stop ↦
            let few = bmap-none (off / bsize) ip d f (ground arith) stop in omega (arith, few, less)
        | inr ((b, ip1, d1), got) ↦
            let m = round off left in
            let (g, lt) = bmap-Gives (off / bsize) b ip ip1 d d1 f got in
            let v = round-Written d d1 ip ip1 at off left b src g lt in
            let step : write_loop fuel (at + m) (off + m) (left - m) src ip1
                  (after_round b at off left src d1)
                ≡ none =
              rw (nz, got) at e in
            let few =
              write_loop-none fuel (at + m) (off + m) (left - m) src ip1
                (after_round b at off left src d1) v.file (ground arith) step in
            let spent = bmap-free_count (off / bsize) b ip ip1 d d1 f got in
            let same = after_round-free_count b at off left src d1 in
            omega (arith, few, spent, same, less)
      ]
]

-- Over blocks that are there, the loop does not panic and the inode does not change.
pub write_loop_over :
    (fuel at off left : ℕ) (src : ℕ → ℕ) (ip : Inode) (d : Disk)
    → IsFile d ip
    → left ≤ fuel
    → off + left ≤ maxfile * bsize
    → ((k : ℕ) → off ≤ k → k < off + left → block_of d ip (k / 512) ≢ 0)
    → (d' : Disk) × (write_loop fuel at off left src ip d ≡ some (ip, d'))
unfolding write_loop
write_loop_over zero at off left src ip d f le fits there = (d, refl)
write_loop_over (suc fuel) at off left src ip d f le fits there = elim (Bool-cases (left == 0)) [
  | inl z ↦ (d, rw z refl)
  | inr nz ↦
      let m = round off left in
      let ne = there off (omega arith) (ground arith) in
      let lt : off / 512 < maxfile = ground arith in
      let b = block_of d ip (off / 512) in
      let part : ℕ → ℕ = λ k. src (at + k) in
      let d1 = after_round b at off left src d in
      let same = put-block_of d ip (off / 512) b f lt refl ne (off % 512) m part in
      let kept = put-IsFile d ip (off / 512) b f lt refl ne (off % 512) m part in
      let (d', rest) =
        write_loop_over fuel (at + m) (off + m) (left - m) src ip d1 kept
          (round_le off left fuel le nz) (ground arith)
          (λ k lo hi.
            subst (λ x. x ≢ 0) (sym (same (k / 512))) (there k (ground arith) (ground arith))) in
      (d', rw (nz, bmap_there (off / bsize) ip d lt ne) rest)
]
