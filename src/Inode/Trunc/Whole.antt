-- ===== src/Inode/Trunc/Whole.antt =====
-- The loops of `itrunc` in fs.c, one after the other.
use col.Base.{
  ap, Bool-cases, Option-cases, arith, inl, inr, refl, some, subst, zero, suc, ℕ, ◌+◌, ◌<◌, ◌≤◌,
  ◌==◌, ◌∙◌, ◌≡◌,
}
use col.Disk.{Disk, bfree}
use col.Inode.Trunc.FreeAll.{free_all}

-- The same blocks under other numbers.
pub free_all_ext :
    (count at at' : ℕ) (B C : ℕ → ℕ) (d : Disk)
    → ((k : ℕ) → k < count → B (at + k) ≡ C (at' + k))
    → free_all count at B d ≡ free_all count at' C d
unfolding free_all
free_all_ext zero at at' B C d h = refl
free_all_ext (suc count) at at' B C d h =
    let here : B at ≡ C at' = ap B (omega arith) ∙ h 0 (omega arith) ∙ ap C (omega arith) in
    let later : (k : ℕ) → k < count → B (at + 1 + k) ≡ C (at' + 1 + k) = λ k lt.
      let p : at + 1 + k ≡ at + (k + 1) = omega arith in
      let q : at' + (k + 1) ≡ at' + 1 + k = omega arith in
      ap B p ∙ h (k + 1) (omega arith) ∙ ap C q in
    elim (Bool-cases (C at' == 0)) [
      | inl z ↦ rw (here, z) (free_all_ext count (at + 1) (at' + 1) B C d later)
      | inr nz ↦ elim (Option-cases (bfree (C at') d)) [
        | inl e ↦ rw (here, nz, e) refl
        | inr (d', e) ↦ rw (here, nz, e) (free_all_ext count (at + 1) (at' + 1) B C d' later)
      ]
    ]

pub free_all-zeros :
    (count at : ℕ) (B : ℕ → ℕ) (d : Disk)
    → ((k : ℕ) → at ≤ k → B k ≡ 0)
    → free_all count at B d ≡ some d
unfolding free_all
free_all-zeros zero at B d h = refl
free_all-zeros (suc count) at B d h =
    rw (h at (omega arith)) (free_all-zeros count (at + 1) B d (λ k lo. h k (omega arith)))

-- A loop in two parts.
pub free_all-split :
    (m n at : ℕ) (B : ℕ → ℕ) (d d' : Disk)
    → free_all (m + n) at B d ≡ some d'
    → (d1 : Disk) × (free_all m at B d ≡ some d1) × (free_all n (at + m) B d1 ≡ some d')
unfolding free_all
free_all-split zero n at B d d' e =
    let z : 0 + n ≡ n = omega arith in
    let y : at ≡ at + 0 = omega arith in
    (
      d,
      refl,
      subst (λ i. free_all n i B d ≡ some d') y (subst (λ i. free_all i at B d ≡ some d') z e),
    )
free_all-split (suc m) n at B d d' e =
    let y : at + 1 + m ≡ at + suc m = omega arith in
    let whole : suc m + n ≡ suc (m + n) = omega arith in
    let e' : free_all (suc (m + n)) at B d ≡ some d' =
      subst (λ i. free_all i at B d ≡ some d') whole e in
    elim (Bool-cases (B at == 0)) [
      | inl z ↦
          let (d1, p, q) = free_all-split m n (at + 1) B d d' (rw z at e') in
          (d1, rw z p, subst (λ i. free_all n i B d1 ≡ some d') y q)
      | inr nz ↦ elim (Option-cases (bfree (B at) d)) [
        | inl stop ↦ cc (rw (nz, stop) at e')
        | inr (d2, got) ↦
            let (d1, p, q) = free_all-split m n (at + 1) B d2 d' (rw (nz, got) at e') in
            (d1, rw (nz, got) p, subst (λ i. free_all n i B d1 ≡ some d') y q)
      ]
    ]
