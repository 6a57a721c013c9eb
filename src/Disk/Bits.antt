-- ===== src/Disk/Bits.antt =====
-- The bits of the free map of fs.c under `mark` and `unmark`.
use col.Disk.{unmark, bit, Disk, bpb, mark}
use col.Base.{
  sym, ◌∙◌, Bool-cases, ap₂, inl, inr, ltb→lt, both_true, ==_iff, ◌≢◌, false, Bool, arith,
  if◌then◌else◌, leb, ltb, refl, suc, true, zero, ℕ, ◌%◌, ◌&&◌, ◌+◌, ◌-◌, ◌/◌, ◌<◌, ◌==◌, ◌^◌, ◌≡◌,
}

-- A check of every value below a bound, by evaluation.
all_below : ℕ → (ℕ → Bool) → Bool
all_below zero p = true
all_below (suc n) p = p n && all_below n p

all_below_lem : (n : ℕ) (p : ℕ → Bool) (x : ℕ) → all_below n p ≡ true → x < n → p x ≡ true
unfolding all_below
all_below_lem zero p x h lt = absurd (omega arith)
all_below_lem (suc n) p x h lt = ground (arith, all_below_lem n p x)

abbrev digit : ℕ → ℕ → ℕ
digit v r = v / 2 ^ r % 2

abbrev flips : ℕ → ℕ → ℕ → Bool
flips v r s =
    if digit v r == 0
    then ltb (v + 2 ^ r) 256 && digit (v + 2 ^ r) s == (if s == r then 1 else digit v s)
    else (digit v r == 1 && leb (2 ^ r) v)
      && digit (v - 2 ^ r) s == (if s == r then 0 else digit v s)

abbrev table : Bool
table = all_below 256 (λ v. all_below 8 (λ r. all_below 8 (λ s. flips v r s)))

table_lem : table ≡ true
unfolding all_below
table_lem = refl

flips_lem : (v r s : ℕ) → v < 256 → r < 8 → s < 8 → flips v r s ≡ true
flips_lem v r s hv hr hs =
    all_below_lem 8 (λ s. flips v r s) s
      (all_below_lem 8 (λ r. all_below 8 (λ s. flips v r s)) r
        (all_below_lem 256 (λ v. all_below 8 (λ r. all_below 8 (λ s. flips v r s))) v table_lem hv)
        hr)
      hs

set_digit :
    (v r s : ℕ)
    → v < 256
    → r < 8
    → s < 8
    → digit v r ≡ 0
    → (v + 2 ^ r < 256) × (digit (v + 2 ^ r) s ≡ (if s == r then 1 else digit v s))
set_digit v r s hv hr hs e =
    let h : flips v r s ≡ true = flips_lem v r s hv hr hs in
    let z : (digit v r == 0) ≡ true = (==_iff _ _).1 e in
    let k : (ltb (v + 2 ^ r) 256 && digit (v + 2 ^ r) s == (if s == r then 1 else digit v s))
        ≡ true =
      rw z at h in
    let (small, same) = both_true _ _ k in (ltb→lt _ _ small, (==_iff _ _).0 same)

clear_digit :
    (v r s : ℕ)
    → v < 256
    → r < 8
    → s < 8
    → digit v r ≢ 0
    → (digit v r ≡ 1) × (digit (v - 2 ^ r) s ≡ (if s == r then 0 else digit v s))
clear_digit v r s hv hr hs e =
    let h : flips v r s ≡ true = flips_lem v r s hv hr hs in
    let z : (digit v r == 0) ≡ false = ground arith in
    let k : ((digit v r == 1 && leb (2 ^ r) v)
          && digit (v - 2 ^ r) s == (if s == r then 0 else digit v s))
        ≡ true =
      rw z at h in
    let (one, same) = both_true _ _ k in ((==_iff _ _).0 (both_true _ _ one).0, (==_iff _ _).0 same)

-- Every entry of the free map is a byte.
abbrev pub IsBytes : Disk → Type 0
IsBytes d = (i j : ℕ) → d.free_map i j < 256

-- The entry of the free map that has the bit of a block.
abbrev pub map_byte : Disk → ℕ → ℕ
map_byte d b = d.free_map (b / bpb) (b % bpb / 8)

-- Two blocks are the same when their bits stand at the same place.
abbrev same_place : ℕ → ℕ → Bool
same_place y b = y / bpb == b / bpb && y % bpb / 8 == b % bpb / 8

same_bit : (y b : ℕ) → same_place y b ≡ true → (y % bpb % 8 == b % bpb % 8) ≡ (y == b)
same_bit y b h = ground arith

other_bit : (y b : ℕ) → same_place y b ≡ false → (y == b) ≡ false
other_bit y b h = ground arith

same_byte : (d : Disk) (y b : ℕ) → same_place y b ≡ true → map_byte d b ≡ map_byte d y
same_byte d y b h =
    let (p, q) = both_true _ _ h in ap₂ d.free_map (sym ((==_iff _ _).0 p)) (sym ((==_iff _ _).0 q))

-- Marking a block that is free sets its bit and no other.
pub bit-mark :
    (d : Disk) (b y : ℕ)
    → IsBytes d
    → bit d b ≡ 0
    → bit (mark b d) y ≡ (if y == b then 1 else bit d y)
unfolding mark
bit-mark d b y v e = elim (Bool-cases (same_place y b)) [
  | inr other ↦ rw (other, other_bit y b other) refl
  | inl same ↦ rw same (
      (set_digit (map_byte d b) (b % bpb % 8) (y % bpb % 8) (v _ _) (omega arith) (omega arith) e).1
      ∙ ap₂ (λ t n. if t then 1 else digit n (y % bpb % 8)) (same_bit y b same)
          (same_byte d y b same))
]

pub mark-IsBytes : (d : Disk) (b : ℕ) → IsBytes d → bit d b ≡ 0 → IsBytes (mark b d)
unfolding mark
mark-IsBytes d b v e i j =
    let small =
      (set_digit (map_byte d b) (b % bpb % 8) 0 (v _ _) (omega arith) (omega arith) e).0 in
    let old = v i j in ground arith

-- Unmarking a block that is in use clears its bit and no other.
pub bit-unmark :
    (d : Disk) (b y : ℕ)
    → IsBytes d
    → bit d b ≢ 0
    → bit (unmark b d) y ≡ (if y == b then 0 else bit d y)
unfolding unmark
bit-unmark d b y v e = elim (Bool-cases (same_place y b)) [
  | inr other ↦ rw (other, other_bit y b other) refl
  | inl same ↦ rw same (
      (clear_digit (map_byte d b) (b % bpb % 8) (y % bpb % 8) (v _ _) (omega arith) (omega arith)
        e).1
      ∙ ap₂ (λ t n. if t then 0 else digit n (y % bpb % 8)) (same_bit y b same)
          (same_byte d y b same))
]

pub unmark-IsBytes : (d : Disk) (b : ℕ) → IsBytes d → IsBytes (unmark b d)
unfolding unmark
unmark-IsBytes d b v i j = let old = v i j in let byte = v (b / bpb) (b % bpb / 8) in ground arith
