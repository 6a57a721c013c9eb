-- ===== src/Dir/Scan.antt =====
-- The loop over the entries of a directory, and `dirlookup`.
use col.Base.{
  ap, Bool, Bool-cases, List, arith, false, inl, inr, leb, ltb, ltb→lt, min, none, refl, some,
  subst, suc, true, zero, ℕ, ◌%◌, ◌+◌, ◌-◌, ◌<◌, ◌^◌, ◌||◌, ◌∙◌, ◌≡◌, ◌≤◌, ◌⊎◌,
}
use col.Disk.{Disk}
use col.Inode.{Inode, is_device, readi, done, FileType, free_inode, directory, plain, device}
use col.Inode.Contents.{IsWhole, readi_lem}
use col.Inode.ReadLoop.{file_bytes}
use col.Dir.{entry_size, is_directory, matches, inum_of, scan, dirlookup}

-- A directory is a file of whole entries.
pub record IsDir (d : Disk) (dp : Inode) : Type 0 where
  pub whole : IsWhole d dp
  pub kind : is_directory dp.kind ≡ true
  pub entries : dp.size % 16 ≡ 0

not_ltb : (a b : ℕ) → ltb a b ≡ false → b ≤ a
not_ltb a b e = ground arith

pub directory-is_device : (t : FileType) → is_directory t ≡ true → is_device t ≡ false
directory-is_device free_inode e = refl
directory-is_device directory e = refl
directory-is_device plain e = refl
directory-is_device device e = cc

abbrev pub entry_at : Disk → Inode → ℕ → List ℕ
entry_at d dp off = file_bytes d dp off entry_size

-- An entry is read whole.
pub entry_read :
    (has : ℕ → Bool) (off : ℕ) (d : Disk) (dp : Inode)
    → IsDir d dp
    → off % 16 ≡ 0
    → off < dp.size
    → readi has off entry_size dp d ≡ some (done entry_size, entry_at d dp off, dp, d)
entry_read has off d dp h al lt =
    let s = h.whole.within in
    let e = h.entries in
    let ok : (ltb dp.size off || leb (2 ^ 32) (off + entry_size)) ≡ false = ground arith in
    let m : min entry_size (dp.size - off) ≡ entry_size = omega arith in
    readi_lem has off entry_size dp d h.whole (directory-is_device dp.kind h.kind) (omega arith)
      (omega arith)
    ∙ rw (ok, m) refl

-- The entry at `at` is the first from `off` on that passes the test.
pub record IsFirst (test : List ℕ → Bool) (d : Disk) (dp : Inode) (off at : ℕ) : Type 0 where
  pub after : off ≤ at
  pub inside : at < dp.size
  pub aligned : at % 16 ≡ 0
  pub passes : test (entry_at d dp at) ≡ true
  pub before : (j : ℕ) → off ≤ j → j < at → j % 16 ≡ 0 → test (entry_at d dp j) ≡ false

abbrev pub NonePasses : (List ℕ → Bool) → Disk → Inode → ℕ → Type 0
NonePasses test d dp off =
    (j : ℕ) → off ≤ j → j < dp.size → j % 16 ≡ 0 → test (entry_at d dp j) ≡ false

module _ (has : ℕ → Bool) (test : List ℕ → Bool) (d : Disk) (dp : Inode) (h : IsDir d dp) where
  pub scan_lem :
      (fuel off : ℕ)
      → off % 16 ≡ 0
      → off ≤ dp.size
      → dp.size ≤ off + fuel
      → ((at : ℕ) × (scan has test fuel off dp d ≡ some (some (entry_at d dp at), at, dp, d))
          × IsFirst test d dp off at)
        ⊎ ((scan has test fuel off dp d ≡ some (none, dp.size, dp, d)) × NonePasses test d dp off)
  unfolding scan
  scan_lem zero off al le enough =
      let same : off ≡ dp.size = omega arith in
      inr (ap (λ n. some (none, n, dp, d)) same, λ j lo hi a. absurd (omega arith))
  scan_lem (suc fuel) off al le enough = elim (Bool-cases (ltb off dp.size)) [
    | inr stop ↦
        let same : off ≡ dp.size = ground arith in
        inr (
          rw (scan, stop) (ap (λ n. some (none, n, dp, d)) same),
          λ j lo hi a. absurd (omega arith),
        )
    | inl on ↦
        let got = entry_read has off d dp h al (ground arith) in
        let e = h.entries in
        elim (Bool-cases (test (entry_at d dp off))) [
          | inl yes_it ↦ inl (
            off,
            rw (scan, on, got, yes_it) refl,
            record {
              after = omega arith;
              inside = ground arith;
              aligned = al;
              passes = yes_it;
              before = λ j lo hi a. absurd (omega arith);
            },
          )
          | inr no_it ↦
              let here : (j : ℕ)
                  → off ≤ j
                  → j < off + 16
                  → j % 16 ≡ 0
                  → test (entry_at d dp j) ≡ false =
                λ j lo hi a.
                  let q : off ≡ j = omega arith in
                  subst (λ i. test (entry_at d dp i) ≡ false) q no_it in
              elim (scan_lem fuel (off + 16) (omega arith) (ground arith) (omega arith)) [
                | inl (at, s, f) ↦ inl (
                  at,
                  rw (scan, on, got, no_it) s,
                  record {
                    after = let a = f.after in omega arith;
                    inside = f.inside;
                    aligned = f.aligned;
                    passes = f.passes;
                    before = λ j lo hi a. elim (Bool-cases (ltb j (off + 16))) [
                      | inl near ↦ here j lo (ltb→lt _ _ near) a
                      | inr far ↦ f.before j (not_ltb _ _ far) hi a
                    ];
                  },
                )
                | inr (s, n) ↦ inr (
                  rw (scan, on, got, no_it) s,
                  λ j lo hi a. elim (Bool-cases (ltb j (off + 16))) [
                    | inl near ↦ here j lo (ltb→lt _ _ near) a
                    | inr far ↦ n j (not_ltb _ _ far) hi a
                  ],
                )
              ]
        ]
  ]

-- `dirlookup` in a directory finds the first entry in use with the name, and answers its number and
-- where it stands; where there is none, it answers so. It changes nothing.
pub dirlookup_lem :
    (has : ℕ → Bool) (name : List ℕ) (d : Disk) (dp : Inode)
    → IsDir d dp
    → ((at : ℕ) × (dirlookup has name dp d ≡ some (some (inum_of (entry_at d dp at), at), dp, d))
        × IsFirst (matches name) d dp 0 at)
      ⊎ ((dirlookup has name dp d ≡ some (none, dp, d)) × NonePasses (matches name) d dp 0)
unfolding dirlookup
dirlookup_lem has name d dp h =
    elim (scan_lem has (matches name) d dp h dp.size 0 (omega arith) (omega arith) (omega arith)) [
      | inl (at, s, f) ↦ inl (at, rw (dirlookup, h.kind, s) refl, f)
      | inr (s, n) ↦ inr (rw (dirlookup, h.kind, s) refl, n)
    ]
