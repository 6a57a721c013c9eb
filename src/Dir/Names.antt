-- ===== src/Dir/Names.antt =====
-- Names as directory entries hold them.
use col.Base.{
  ==_iff, Bool-cases, List, [], ◌∷◌, ap, arith, get_or, if◌then◌else◌, inl, inr, length, refl,
  subst, suc, true, zero, ℕ, ◌+◌, ◌<◌, ◌==◌, ◌^◌, ◌∙◌, ◌≡◌,
}
use col.Inode.{chunk}
use col.Inode.ReadLoop.{chunk_ext}
use col.Dir.{first_byte, later_bytes, namecmp, strncpy_bytes, inum_of, new_entry, entry_size}

-- A name is the same as its copy.
pub namecmp-strncpy : (n : ℕ) (s : List ℕ) → namecmp n s (strncpy_bytes n s) ≡ true
unfolding namecmp strncpy_bytes
namecmp-strncpy zero s = refl
namecmp-strncpy (suc n) s =
    let self : (first_byte s == first_byte s) ≡ true = (==_iff _ _).1 refl in
    elim (Bool-cases (first_byte s == 0)) [
      | inl z ↦ rw (self, z) refl
      | inr nz ↦ rw (self, nz) (namecmp-strncpy n (later_bytes s))
    ]

length-strncpy : (n : ℕ) (s : List ℕ) → length (strncpy_bytes n s) ≡ n
unfolding strncpy_bytes
length-strncpy zero s = refl
length-strncpy (suc n) s =
    ap suc (length-strncpy n (if first_byte s == 0 then [] else later_bytes s))

chunk-get_or : (xs : List ℕ) → chunk (λ k. get_or xs k 0) 0 (length xs) ≡ xs
chunk-get_or [] = refl
chunk-get_or (x ∷ xs) =
    ap (λ ys. x ∷ ys)
      (chunk_ext (λ k. get_or (x ∷ xs) k 0) (λ k. get_or xs k 0) (0 + 1) 0 (length xs)
          (λ k lt.
            let p : 0 + 1 + k ≡ suc k = omega arith in
            let q : k ≡ 0 + k = omega arith in
            ap (λ i. get_or (x ∷ xs) i 0) p ∙ ap (λ i. get_or xs i 0) q)
        ∙ chunk-get_or xs)

-- The bytes of a new entry.
pub new_entry-chunk :
    (name : List ℕ) (inum : ℕ)
    → chunk (λ k. get_or (new_entry name inum) k 0) 0 entry_size ≡ new_entry name inum
new_entry-chunk name inum =
    let e : length (new_entry name inum) ≡ entry_size =
      ap (λ n. suc (suc n)) (length-strncpy 14 name) in
    subst (λ n. chunk (λ k. get_or (new_entry name inum) k 0) 0 n ≡ new_entry name inum) e
      (chunk-get_or (new_entry name inum))

pub new_entry-inum :
    (name : List ℕ) (inum : ℕ) → inum < 2 ^ 16 → inum_of (new_entry name inum) ≡ inum
new_entry-inum name inum lt = omega arith
