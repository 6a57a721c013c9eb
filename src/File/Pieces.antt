-- ===== src/File/Pieces.antt =====
-- The loop of `filewrite` in file.c.
use col.Base.{
  sym, ==_iff, subst, ltb→lt, lt→ltb, refl, Bool-cases, arith, inl, inr, ltb, pos, suc, zero, ℕ, ℤ,
  ◌+◌, ◌-◌, ◌<◌, ◌≡◌, ◌≤◌,
}
use col.File.{max_piece, piece, all_written, write_loop}

module _ {S : Type 0} (writei : S → (from off n : ℕ) → S × ℤ) where
  -- What the calls of `writei` for bytes `i` up to `n` make of `s`, piece by piece.
  pub data Pieces (n : ℕ) : (i off : ℕ) → S → S → Type 0 where
    done : (off : ℕ) (s : S) → Pieces n n off s s
    more :
        (i off m : ℕ) (s t : S)
        → 0 < m
        → m ≤ max_piece
        → i + m ≤ n
        → Pieces n (i + m) (off + m) (writei s i off m).0 t
        → Pieces n i off s t

  write_loop_step :
      (fuel i n off : ℕ) (s : S)
      → ((t : S) (from o m : ℕ) → (writei t from o m).1 ≡ pos m)
      → i < n
      → let m = piece (n - i) in
        write_loop writei (suc fuel) i n off s
        ≡ write_loop writei fuel (i + m) n (off + m) (writei s i off m).0
  unfolding write_loop
  write_loop_step fuel i n off s all lt =
      rw (
        lt→ltb i n lt,
        all s i off (piece (n - i)),
        (==_iff (piece (n - i)) (piece (n - i))).1 refl,
      )

  -- Where `writei` always writes what it is asked to, the loop of `filewrite` writes all bytes from `i`
  -- up to `n`, with any fuel above their number: in consecutive pieces of at most 1536 bytes, from the
  -- file's offset on, which then stands behind them.
  pub write_loop-Pieces :
      (fuel i n off : ℕ) (s : S)
      → ((t : S) (from o m : ℕ) → (writei t from o m).1 ≡ pos m)
      → i ≤ n
      → n - i < fuel
      → let (t, off', w) = write_loop writei fuel i n off s in
        Pieces n i off s t × (off' + i ≡ off + n) × (w ≡ all_written n)
  unfolding write_loop
  write_loop-Pieces zero i n off s all le enough = absurd (omega arith)
  write_loop-Pieces (suc fuel) i n off s all le enough = elim (Bool-cases (ltb i n)) [
    | inl lt ↦
        let m = piece (n - i) in
        let some_left : i < n = ltb→lt i n lt in
        let bounds : (0 < m) × (m ≤ max_piece) × (i + m ≤ n) = ground arith in
        let (pieces, at_end, w) =
          write_loop-Pieces fuel (i + m) n (off + m) (writei s i off m).0 all bounds.2
            (omega (arith, bounds)) in
        subst (λ r. Pieces n i off s r.0 × (r.1 + i ≡ off + n) × (r.2 ≡ all_written n))
          (sym (write_loop_step fuel i n off s all some_left))
          (more i off m s _ bounds.0 bounds.1 bounds.2 pieces, omega (arith, at_end), w)
    | inr ge ↦
        let same : i ≡ n = ground arith in
        rw (ge, (==_iff i n).1 same)
          (subst (λ j. Pieces n j off s s) (sym same) (done off s), omega arith, refl)
  ]
