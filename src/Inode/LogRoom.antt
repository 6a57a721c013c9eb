-- ===== src/Inode/LogRoom.antt =====
-- The calls of `log_write` that `writei` of fs.c makes, and `writei` with the panic of `log_write`.
use col.Base.{
  [], ◌∷◌, ◌^◌, ◌%◌, Bool, Bool-cases, Option-cases, arith, false, inl, inr, ltb, none, refl, some,
  some-injective, subst, true, zero, suc, ℕ, ◌*◌, ◌+◌, ◌-◌, ◌/◌, ◌&&◌, ◌<◌, ◌≤◌, ◌==◌, ◌⊎◌, ◌≡◌,
}
use col.Disk.{bsize, Disk, balloc, to_log, lh_n, log_fits}
use col.Disk.Count.{free_count}
use col.Disk.LogRoom.{Logs, nothing-Logs, one-Logs, Logs-then, balloc-Logs}
use col.Inode.{
  Inode, Store, is_device, maxfile, ndirect, nindirect, addr, put_addr, put_word, put_bytes,
  word_at, ensure_addr, ensure_entry, bmap, round, write_loop, iupdate, Moved, done, writei,
  writei_in_log,
}
use col.Inode.Contents.{IsWhole}
use col.Inode.WriteLoop.{after_round, blocks_touched, touched_less}
use col.Inode.Extend.{Extended, writei-Extended}

ensure_addr-Logs :
    (i b : ℕ) (ip ip' : Inode) (d d' : Disk)
    → ensure_addr i ip d ≡ some (b, ip', d')
    → Logs 2 d.logged d'.logged
unfolding ensure_addr
ensure_addr-Logs i b ip ip' d d' e = elim (Bool-cases (addr ip i == 0)) [
  | inr nz ↦
      let q : some (addr ip i, ip, d) ≡ some (b, ip', d') = rw nz at e in
      subst (λ r. Logs 2 d.logged r.2.logged) (some-injective _ _ q) (nothing-Logs 2 d.logged)
  | inl z ↦ elim (Option-cases (balloc d)) [
    | inl q ↦ cc (rw (z, q) at e)
    | inr ((x, d1), got) ↦
        let q : some (x, put_addr i x ip, d1) ≡ some (b, ip', d') = rw (z, got) at e in
        subst (λ r. Logs 2 d.logged r.2.logged) (some-injective _ _ q) (balloc-Logs d d1 x got)
  ]
]

ensure_entry-Logs :
    (blk i b : ℕ) (ip ip' : Inode) (d d' : Disk)
    → ensure_entry blk i ip d ≡ some (b, ip', d')
    → Logs 3 d.logged d'.logged
unfolding ensure_entry put_word
ensure_entry-Logs blk i b ip ip' d d' e =
    let w : ℕ = word_at (d.bytes blk) i in
    elim (Bool-cases (w == 0)) [
      | inr nz ↦
          let q : some (w, ip, d) ≡ some (b, ip', d') = rw nz at e in
          subst (λ r. Logs 3 d.logged r.2.logged) (some-injective _ _ q) (nothing-Logs 3 d.logged)
      | inl z ↦ elim (Option-cases (balloc d)) [
        | inl q ↦ cc (rw (z, q) at e)
        | inr ((x, d1), got) ↦
            let q : some (x, ip, to_log blk (put_word blk i x d1)) ≡ some (b, ip', d') =
              rw (z, got) at e in
            subst (λ r. Logs 3 d.logged r.2.logged) (some-injective _ _ q)
              (Logs-then 2 1 3 _ _ _ (omega arith) (balloc-Logs d d1 x got)
                (one-Logs blk d1.logged))
      ]
    ]

-- `bmap` logs five blocks at the most.
bmap-Logs :
    (bn b : ℕ) (ip ip' : Inode) (d d' : Disk)
    → bmap bn ip d ≡ some (b, ip', d')
    → Logs 5 d.logged d'.logged
unfolding bmap
bmap-Logs bn b ip ip' d d' e = elim (Bool-cases (ltb bn ndirect)) [
  | inl near ↦
      Logs-then 0 2 5 _ _ _ (omega arith) (nothing-Logs 0 d.logged)
        (ensure_addr-Logs bn b ip ip' d d' (rw near at e))
  | inr far ↦ elim (Bool-cases (ltb (bn - ndirect) nindirect)) [
    | inr out ↦ cc (rw (far, out) at e)
    | inl in_range ↦ elim (Option-cases (ensure_addr ndirect ip d)) [
      | inl no_block ↦ cc (rw (far, in_range, no_block) at e)
      | inr ((blk, ip1, d1), got) ↦
          Logs-then 2 3 5 _ _ _ (omega arith) (ensure_addr-Logs ndirect blk ip ip1 d d1 got)
            (ensure_entry-Logs blk (bn - ndirect) b ip1 ip' d1 d' (rw (far, in_range, got) at e))
    ]
  ]
]

-- The loop logs at most six blocks for each that it touches.
write_loop-Logs :
    (fuel at off left : ℕ) (src : ℕ → ℕ) (ip ip' : Inode) (d d' : Disk)
    → write_loop fuel at off left src ip d ≡ some (ip', d')
    → Logs (6 * blocks_touched off left) d.logged d'.logged
unfolding write_loop put_bytes
write_loop-Logs zero at off left src ip ip' d d' e =
    subst (λ r. Logs (6 * blocks_touched off left) d.logged r.1.logged) (some-injective _ _ e)
      (nothing-Logs (6 * blocks_touched off left) d.logged)
write_loop-Logs (suc fuel) at off left src ip ip' d d' e = elim (Bool-cases (left == 0)) [
  | inl z ↦
      let q : some (ip, d) ≡ some (ip', d') = rw z at e in
      subst (λ r. Logs (6 * blocks_touched off left) d.logged r.1.logged) (some-injective _ _ q)
        (nothing-Logs (6 * blocks_touched off left) d.logged)
  | inr nz ↦ elim (Option-cases (bmap (off / bsize) ip d)) [
    | inl stop ↦ cc (rw (nz, stop) at e)
    | inr ((b, ip1, d1), got) ↦
        let m = round off left in
        let rest =
          write_loop-Logs fuel (at + m) (off + m) (left - m) src ip1 ip'
            (after_round b at off left src d1) d' (rw (nz, got) at e) in
        let less = touched_less off left nz in
        let first : Logs 6 d.logged (after_round b at off left src d1).logged =
          Logs-then 5 1 6 _ _ _ (omega arith) (bmap-Logs (off / bsize) b ip ip1 d d1 got)
            (one-Logs b d1.logged) in
        Logs-then 6 (6 * blocks_touched (off + m) (left - m)) _ _ _ _ (omega arith) first rest
  ]
]

writei-Logs :
    (has : ℕ → Bool) (iblock off n : ℕ) (src : ℕ → ℕ) (ip ip' : Inode) (s s' : Store)
    → is_device ip.kind ≡ false
    → off ≤ ip.size
    → off + n ≤ maxfile * bsize
    → writei has iblock off n src ip s ≡ some (done n, ip', s')
    → Logs (6 * blocks_touched off n + 1) s.disk.logged s'.disk.logged
unfolding writei
writei-Logs has iblock off n src ip ip' s s' plain inside fits e =
    let a : ltb ip.size off ≡ false = ground arith in
    let b : ltb ((off + n) % 2 ^ 32) off ≡ false = ground arith in
    let c : ltb (maxfile * bsize) (off + n) ≡ false = ground arith in
    let calls : ℕ = 6 * blocks_touched off n in
    elim (Option-cases (write_loop n 0 off n src ip s.disk)) [
      | inl stop ↦ cc (rw (plain, a, b, c, stop) at e)
      | inr ((ip1, d1), got) ↦
          let loop = write_loop-Logs n 0 off n src ip ip1 s.disk d1 got in
          elim (Bool-cases (ltb 0 n && ltb ip1.size (off + n))) [
            | inl g ↦
                let grown : Inode = record ip1 { size = off + n } in
                let after : Store = iupdate iblock grown (record s { disk = d1 }) in
                let q : some (done n, grown, after) ≡ some (done n, ip', s') =
                  rw (plain, a, b, c, got, g) at e in
                subst
                  (λ (r : Moved × Inode × Store). Logs (calls + 1) s.disk.logged r.2.disk.logged)
                  (some-injective (done n, grown, after) (done n, ip', s') q)
                  (Logs-then calls 1 (calls + 1) s.disk.logged d1.logged (iblock ∷ d1.logged)
                    (omega arith) loop (one-Logs iblock d1.logged))
            | inr g ↦
                let q : some (done n, ip1, record s { disk = d1 }) ≡ some (done n, ip', s') =
                  rw (plain, a, b, c, got, g) at e in
                subst
                  (λ (r : Moved × Inode × Store). Logs (calls + 1) s.disk.logged r.2.disk.logged)
                  (some-injective (done n, ip1, record s { disk = d1 }) (done n, ip', s') q)
                  (Logs-then calls 0 (calls + 1) s.disk.logged d1.logged d1.logged (omega arith)
                    loop (nothing-Logs 0 d1.logged))
          ]
    ]

-- A write to a plain file or a directory without holes that begins within the file and stays below
-- the largest size, in a transaction whose calls of `log_write` have not panicked so far, is done, the
-- panic of `log_write` included, unless fewer blocks are free than two for each block of the file that
-- the range touches, or the header of the log has room for fewer entries than six for each of those
-- blocks and one for the inode. The file has the bytes written at their place then, and its other bytes
-- as before; it has grown to the end of the range if that was behind its end; it has no holes; the
-- disk's copy of the inode is up to date if it was so before; and no call of `log_write` has panicked.
pub writei_in_log-Extended :
    (room : ℕ) (has : ℕ → Bool) (iblock off n : ℕ) (src : ℕ → ℕ) (ip : Inode) (s : Store)
    → IsWhole s.disk ip
    → is_device ip.kind ≡ false
    → off ≤ ip.size
    → off + n ≤ maxfile * bsize
    → log_fits room s.disk.logged ≡ true
    → ((writei_in_log room has iblock off n src ip s ≡ none)
        × ((free_count s.disk < 2 * blocks_touched off n)
            ⊎ (room < lh_n s.disk.logged + 6 * blocks_touched off n + 1)))
      ⊎ ((r : Inode × Store) × (writei_in_log room has iblock off n src ip s
            ≡ some (done n, r.0, r.1))
          × Extended s r.1 ip r.0 off n src
          × (log_fits room r.1.disk.logged ≡ true))
unfolding writei_in_log
writei_in_log-Extended room has iblock off n src ip s w plain inside fits ok =
    let calls : ℕ = 6 * blocks_touched off n + 1 in
    elim (writei-Extended has iblock off n src ip s w plain inside fits) [
      | inl (stop, few) ↦ inl (rw (writei_in_log, stop) refl, inl few)
      | inr ((ip', s'), got, x) ↦
          let logs = writei-Logs has iblock off n src ip ip' s s' plain inside fits got in
          elim (Bool-cases (log_fits room s'.disk.logged)) [
            | inl there ↦ inr ((ip', s'), rw (writei_in_log, got, there) refl, x, there)
            | inr full ↦ inl (
              rw (writei_in_log, got, full) refl,
              inr (elim (Bool-cases (ltb room (lh_n s.disk.logged + calls))) [
                | inl short ↦ ground arith
                | inr enough ↦ cc (logs.fits room ok (ground arith))
              ]),
            )
          ]
    ]

-- In a transaction that has logged nothing, the largest part that `filewrite` (file.c) writes at a time,
-- 1536 bytes, never fills the log that mkfs.c makes, with room for 29 blocks.
filewrite_part_fits :
    (has : ℕ → Bool) (iblock off n : ℕ) (src : ℕ → ℕ) (ip : Inode) (s : Store)
    → IsWhole s.disk ip
    → is_device ip.kind ≡ false
    → off ≤ ip.size
    → off + n ≤ maxfile * bsize
    → s.disk.logged ≡ []
    → n ≤ 1536
    → writei_in_log 29 has iblock off n src ip s ≡ none
    → free_count s.disk < 2 * blocks_touched off n
unfolding log_fits lh_n
filewrite_part_fits has iblock off n src ip s w plain inside fits start small e =
    let ok : log_fits 29 s.disk.logged ≡ true = rw start refl in
    let empty : lh_n s.disk.logged ≡ 0 = rw start refl in
    let part : blocks_touched off n ≤ 4 = ground arith in
    elim (writei_in_log-Extended 29 has iblock off n src ip s w plain inside fits ok) [
      | inl (_, inl few) ↦ few
      | inl (_, inr short) ↦ absurd (omega arith)
      | inr (r, got, _, _) ↦ cc
    ]
