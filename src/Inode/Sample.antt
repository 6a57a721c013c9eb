-- ===== src/Inode/Sample.antt =====
-- A small disk, with a file of one block, for the tests.
use col.Base.{
  refl, replicate, get_or, arith, inl, inr, Bool-cases, if◌then◌else◌, ltb, zero, suc, ℕ, [], ◌∷◌,
  ◌==◌, ◌&&◌, ◌≡◌, ◌∙◌, ◌+◌, ◌%◌, ◌/◌, ◌≤◌,
}
use col.Disk.{Disk}
use col.Inode.{FileType, Inode, ndirect}
use col.Inode.Mapped.{block_of}
use col.Inode.Contents.{IsWhole}

-- Blocks 0 and 1 of four are in use.
abbrev pub four_blocks : Disk
four_blocks = record {
  size = 4;
  bmapstart = 9;
  free_map = λ i j. if i == 0 && j == 0 then 3 else 0;
  bytes = λ b i. if b == 1 then (i + 65) % 256 else 0;
  logged = [];
}

abbrev pub file_of : FileType → ℕ → Inode
file_of t n = record {
  kind = t;
  major = 0;
  minor = 0;
  nlink = 1;
  size = n;
  addrs = 1 ∷ replicate 12 0;
}

get_or-zeros : (n i : ℕ) → get_or {A = ℕ} (replicate n 0) i 0 ≡ 0
get_or-zeros zero i = refl
get_or-zeros (suc n) zero = refl
get_or-zeros (suc n) (suc i) = get_or-zeros n i

first_only : (j : ℕ) → get_or {A = ℕ} (1 ∷ replicate 12 0) j 0 ≡ (if j == 0 then 1 else 0)
first_only zero = refl
first_only (suc j) = get_or-zeros 12 j ∙ ground arith

only_block :
    (t : FileType) (n j : ℕ) → block_of four_blocks (file_of t n) j ≡ (if j == 0 then 1 else 0)
only_block t n j = elim (Bool-cases (ltb j ndirect)) [
  | inl near ↦ rw near (first_only j)
  | inr far ↦ rw far (ground arith)
]

-- It may have any size up to a block.
pub file_of-IsWhole : (t : FileType) (n : ℕ) → n ≤ 512 → IsWhole four_blocks (file_of t n)
file_of-IsWhole t n le = record {
  file = record {
    long = refl;
    is_bytes = λ i j. ground arith;
    boot_used = λ e. omega (arith, e);
    small = omega arith;
    layout = record {
      used = λ i lt ne. elim (Bool-cases (i == 0)) [
        | inl z ↦ rw (only_block t n i, z) (λ e. omega (arith, e))
        | inr z ↦ absurd (ne (only_block t n i ∙ rw z refl))
      ];
      indirect_used = λ ne. absurd (ne refl);
      distinct = λ i j li lj ne e. ground (arith, only_block t n i, only_block t n j);
      apart = λ i lt ne e. ne e;
    };
  };
  within = omega arith;
  there = λ k lt e. ground (arith, only_block t n (k / 512));
}
