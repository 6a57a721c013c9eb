-- ===== src/Icache/Lookup.antt =====
-- The loop of `iget`.
use native.Mathlib.Decide.{ℕ_discrete}
use col.Base.{
  ==_iff, Option, arith, false, none, some, suc, true, zero, ℕ, ◌+◌, ◌==◌, ◌≡◌, ◌<◌, ◌≤◌, inl, inr,
  sym, subst, Bool-cases,
}
use col.Icache.{Inode, Place, cached, recycled, no_inodes, is_cached, remember, place_of, scan}

-- What `empty` says of the entries before `i`.
abbrev IsEmpty : (ℕ → Inode) → (i : ℕ) → Option ℕ → Type 0
IsEmpty inode i none = Unit
IsEmpty inode i (some e) = (e < i) × ((inode e).ref ≡ 0)

-- A cached inode is the one asked for. A recycled entry is free, and then no entry of the range holds
-- the inode.
abbrev pub IsPlace : (ℕ → Inode) → (i n dev inum : ℕ) → Place → Type 0
IsPlace inode i n dev inum (cached j) = (j < n) × (is_cached dev inum (inode j) ≡ true)
IsPlace inode i n dev inum (recycled j) =
    (j < n) × ((inode j).ref ≡ 0) × ((k : ℕ) → i ≤ k → k < n → is_cached dev inum (inode k) ≡ false)
IsPlace inode i n dev inum no_inodes = Unit

remember-IsEmpty :
    (inode : ℕ → Inode) (i : ℕ) (empty : Option ℕ)
    → IsEmpty inode i empty
    → IsEmpty inode (i + 1) (remember empty i (inode i))
remember-IsEmpty inode i none h = elim (Bool-cases ((inode i).ref == 0)) [
  | inl e ↦ rw e (omega arith, (==_iff (inode i).ref 0).0 e)
  | inr e ↦ rw e tt
]
remember-IsEmpty inode i (some e) h = (omega arith, h.1)

place_of-IsPlace :
    (inode : ℕ → Inode) (n dev inum : ℕ) (empty : Option ℕ)
    → IsEmpty inode n empty
    → IsPlace inode n n dev inum (place_of empty)
place_of-IsPlace inode n dev inum none h = tt
place_of-IsPlace inode n dev inum (some e) h = (h.0, h.1, λ k le lt. absurd (omega arith))

-- One more entry that does not hold the inode.
widen :
    (inode : ℕ → Inode) (i n dev inum : ℕ) (p : Place)
    → is_cached dev inum (inode i) ≡ false
    → IsPlace inode (i + 1) n dev inum p
    → IsPlace inode i n dev inum p
widen inode i n dev inum (cached j) e h = h
widen inode i n dev inum (recycled j) e (lt, free, rest) = (
  lt,
  free,
  λ k le l. elim (ℕ_discrete i k) [
    | yes q ↦ subst (λ x. is_cached dev inum (inode x) ≡ false) q e
    | no ne ↦ rest k (omega arith) l
  ],
)
widen inode i n dev inum no_inodes e h = tt

pub scan-IsPlace :
    (left i n dev inum : ℕ) (inode : ℕ → Inode) (empty : Option ℕ)
    → i + left ≡ n
    → IsEmpty inode i empty
    → IsPlace inode i n dev inum (scan left i dev inum inode empty)
unfolding scan
scan-IsPlace zero i n dev inum inode empty e h =
    let q : i ≡ n = omega arith in
    subst (λ x. IsPlace inode x n dev inum (place_of empty)) (sym q)
      (place_of-IsPlace inode n dev inum empty (subst (λ x. IsEmpty inode x empty) q h))
scan-IsPlace (suc left) i n dev inum inode empty e h =
    elim (Bool-cases (is_cached dev inum (inode i))) [
      | inl hit ↦ rw hit (omega arith, hit)
      | inr miss ↦ rw miss (
          widen inode i n dev inum _ miss (
            scan-IsPlace left (i + 1) n dev inum inode (remember empty i (inode i)) (omega arith)
              (remember-IsEmpty inode i empty h)))
    ]
