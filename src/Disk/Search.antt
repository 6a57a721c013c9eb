-- ===== src/Disk/Search.antt =====
-- The two loops of `balloc` in fs.c.
use col.Base.{
  Option-cases, true, ==_iff, Bool-cases, arith, inl, inr, ltb, ltb→lt, none, some, subst, suc, sym,
  zero, ℕ, ◌+◌, ◌<◌, ◌==◌, ◌≡◌, ◌≢◌, ◌≤◌,
}
use col.Disk.{bpb, Disk, bit, find_bit, find_free}

-- Block `x` is the first free one from block `b` on.
pub record IsFirst (d : Disk) (b x : ℕ) : Type 0 where
  pub within : (b ≤ x) × (x < d.size)
  pub free : bit d x ≡ 0
  pub lowest : (y : ℕ) → b ≤ y → y < x → bit d y ≢ 0

-- No block in a range below the size is free.
abbrev pub AllUsed : Disk → ℕ → ℕ → Type 0
AllUsed d b stop = (y : ℕ) → b ≤ y → y < stop → y < d.size → bit d y ≢ 0

find_bit-some : (k : ℕ) (d : Disk) (b bi x : ℕ) → find_bit k d b bi ≡ some x → IsFirst d (b + bi) x
unfolding find_bit
find_bit-some zero d b bi x e = cc
find_bit-some (suc k) d b bi x e = elim (Bool-cases (ltb (b + bi) d.size)) [
  | inr out ↦ absurd (ground arith)
  | inl lt ↦ elim (Bool-cases (bit d (b + bi) == 0)) [
    | inl free ↦
        let same : b + bi ≡ x = ground arith in
        subst (IsFirst d (b + bi)) same (record {
          within = (omega arith, ltb→lt _ _ lt);
          free = (==_iff _ _).0 free;
          lowest = λ y lo hi. absurd (omega arith);
        })
    | inr used ↦
        let r = find_bit-some k d b (bi + 1) x (ground arith) in
        record {
          within = (omega (arith, r.within), r.within.1);
          free = r.free;
          lowest = λ y lo hi. elim (Bool-cases (y == b + bi)) [
            | inl at ↦ subst (λ z. bit d z ≢ 0) (sym ((==_iff _ _).0 at)) (ground arith)
            | inr past ↦ r.lowest y (ground arith) hi
          ];
        }
  ]
]

find_bit-none :
    (k : ℕ) (d : Disk) (b bi : ℕ) → find_bit k d b bi ≡ none → AllUsed d (b + bi) (b + bi + k)
unfolding find_bit
find_bit-none zero d b bi e y lo hi lt = absurd (omega arith)
find_bit-none (suc k) d b bi e y lo hi lt = elim (Bool-cases (y == b + bi)) [
  | inl at ↦
      (let same : y ≡ b + bi = (==_iff _ _).0 at in
        let inside : b + bi < d.size = omega arith in
        subst (λ z. bit d z ≢ 0) (sym same) (ground arith))
  | inr past ↦
      find_bit-none k d b (bi + 1) (let inside : b + bi < d.size = omega arith in ground arith) y
        (ground arith) (omega arith) lt
]

pub find_free-some : (k : ℕ) (d : Disk) (b x : ℕ) → find_free k d b ≡ some x → IsFirst d b x
unfolding find_free
find_free-some zero d b x e = cc
find_free-some (suc k) d b x e = elim (Bool-cases (ltb b d.size)) [
  | inr out ↦ absurd (ground arith)
  | inl lt ↦
      let start : b + 0 ≡ b = omega arith in
      elim (Option-cases (find_bit bpb d b 0)) [
        | inr (z, f) ↦
            let same : z ≡ x = ground arith in
            subst (IsFirst d b) same
              (subst (λ c. IsFirst d c z) start (find_bit-some bpb d b 0 z f))
        | inl f ↦
            let r = find_free-some k d (b + bpb) x (ground arith) in
            record {
              within = (omega (arith, r.within), r.within.1);
              free = r.free;
              lowest = λ y lo hi. elim (Bool-cases (ltb y (b + bpb))) [
                | inl near ↦
                    find_bit-none bpb d b 0 f y (omega arith) (ground arith)
                      (omega (arith, r.within))
                | inr far ↦ r.lowest y (ground arith) hi
              ];
            }
      ]
]

pub find_free-none : (k : ℕ) (d : Disk) (b : ℕ) → find_free k d b ≡ none → AllUsed d b (b + k)
unfolding find_free
find_free-none zero d b e y lo hi lt = absurd (omega arith)
find_free-none (suc k) d b e y lo hi lt =
    let inside : ltb b d.size ≡ true = ground arith in
    elim (Option-cases (find_bit bpb d b 0)) [
      | inr (z, f) ↦ absurd (ground arith)
      | inl f ↦ elim (Bool-cases (ltb y (b + bpb))) [
        | inl near ↦ find_bit-none bpb d b 0 f y (omega arith) (ground arith) lt
        | inr far ↦ find_free-none k d (b + bpb) (ground arith) y (ground arith) (omega arith) lt
      ]
    ]
