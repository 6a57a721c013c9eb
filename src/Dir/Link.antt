-- ===== src/Dir/Link.antt =====
-- `dirlink`, and `dirlookup` after it.
use col.Base.{
  ap, ap₂, ==_iff, Bool, Bool-cases, List, arith, false, get_or, inl, inr, leb, ltb, refl, some,
  some-injective, subst, sym, true, ℕ, ◌%◌, ◌*◌, ◌+◌, ◌-◌, ◌&&◌, ◌<◌, ◌==◌, ◌^◌, ◌∙◌, ◌≡◌, ◌≢◌, ◌≤◌,
}
use col.Disk.{bsize}
use col.Inode.{Inode, Store, maxfile}
use col.Inode.Mapped.{file_byte}
use col.Inode.ReadLoop.{chunk_ext}
use col.Inode.Extend.{Extended, writei-Extended, writei-refused}
use col.Path.{dirsiz}
use col.Dir.{
  entry_size, is_directory, matches, is_empty, inum_of, dirlookup, dirlink, put_entry, new_entry,
}
use col.Dir.Names.{namecmp-strncpy, new_entry-chunk, new_entry-inum}
use col.Dir.Scan.{IsDir, directory-is_device, entry_at, NonePasses, scan_lem, dirlookup_lem}

-- The new entry passes for its name.
new_entry-matches :
    (name : List ℕ) (inum : ℕ)
    → inum < 2 ^ 16
    → inum ≢ 0
    → matches name (new_entry name inum) ≡ true
new_entry-matches name inum lt nz =
    let z : (inum_of (new_entry name inum) == 0) ≡ false =
      (let e = new_entry-inum name inum lt in ground arith) in
    rw (z, namecmp-strncpy dirsiz name) refl

both_ways : (b : Bool) → b ≡ true → b ≡ false → ⊥
both_ways b t f = cc

apart :
    (off j k : ℕ)
    → off % 16 ≡ 0
    → j % 16 ≡ 0
    → j ≢ off
    → k < 16
    → (leb off (j + k) && ltb (j + k) (off + 16)) ≡ false
apart off j k al aj ne l = ground arith

-- One entry is written, at the end or over an old one.
module _ (name : List ℕ) (inum off : ℕ) (dp dp' : Inode) (s s' : Store) (h : IsDir s.disk dp)
    (al : off % 16 ≡ 0) (le : off ≤ dp.size)
    (x : Extended s s' dp dp' off entry_size (λ k. get_or (new_entry name inum) k 0)) where
  after-IsDir : IsDir s'.disk dp'
  after-IsDir = record {
    whole = x.whole;
    kind = ap (λ (i : Inode). is_directory i.kind) x.same_fields ∙ h.kind;
    entries = let e = x.size_eq in let z = h.entries in ground arith;
  }

  written : off < dp'.size
  written = let e = x.size_eq in ground arith

  entry_new : entry_at s'.disk dp' off ≡ new_entry name inum
  entry_new =
      chunk_ext (file_byte s'.disk dp') (λ k. get_or (new_entry name inum) k 0) off 0 entry_size
        (λ k lt.
          let al' = after-IsDir.entries in
          let t : (leb off (off + k) && ltb (off + k) (off + entry_size)) ≡ true = ground arith in
          let i : off + k - off ≡ 0 + k = omega arith in
          let size = x.size_eq in x.bytes (off + k) (ground arith) ∙ rw (t, i) refl)
      ∙ new_entry-chunk name inum

  entry_old :
      (j : ℕ) → j % 16 ≡ 0 → j < dp'.size → j ≢ off → entry_at s'.disk dp' j ≡ entry_at s.disk dp j
  entry_old j aj lt ne =
      chunk_ext (file_byte s'.disk dp') (file_byte s.disk dp) j j entry_size (λ k l.
        let al' = after-IsDir.entries in
        let t : (leb off (j + k) && ltb (j + k) (off + entry_size)) ≡ false =
          apart off j k al aj ne l in
        x.bytes (j + k) (omega arith) ∙ rw t refl)

  was_inside : (j : ℕ) → j % 16 ≡ 0 → j < dp'.size → j ≢ off → j < dp.size
  was_inside j aj lt ne = let e = x.size_eq in ground arith

  -- Where no entry had the name, the new one is what is found.
  pub finds_new :
      (has : ℕ → Bool)
      → inum < 2 ^ 16
      → inum ≢ 0
      → NonePasses (matches name) s.disk dp 0
      → dirlookup has name dp' s'.disk ≡ some (some (inum, off), dp', s'.disk)
  finds_new has lt nz absent =
      let fits : matches name (entry_at s'.disk dp' off) ≡ true =
        ap (matches name) entry_new ∙ new_entry-matches name inum lt nz in
      elim (dirlookup_lem has name s'.disk dp' after-IsDir) [
        | inr (_, n) ↦ absurd (both_ways _ fits (n off (omega arith) written al))
        | inl (at, e, f) ↦ elim (Bool-cases (at == off)) [
          | inl same ↦
              (let at_off : at ≡ off = (==_iff _ _).0 same in
                let number : inum_of (entry_at s'.disk dp' at) ≡ inum =
                  ap (λ i. inum_of (entry_at s'.disk dp' i)) at_off
                  ∙ ap inum_of entry_new
                  ∙ new_entry-inum name inum lt in
                e ∙ ap₂ (λ i a. some (some (i, a), dp', s'.disk)) number at_off)
          | inr ne ↦
              (let apart_from : at ≢ off = λ q. both_ways _ ((==_iff at off).1 q) ne in
                let before = was_inside at f.aligned f.inside apart_from in
                let old = entry_old at f.aligned f.inside apart_from in
                absurd (
                  both_ways _ (ap (matches name) (sym old) ∙ f.passes)
                    (absent at (omega arith) before f.aligned)))
        ]
      ]

put_entry-done :
    (has : ℕ → Bool) (iblock off inum : ℕ) (name : List ℕ) (dp dp' : Inode) (s s' : Store)
    → IsDir s.disk dp
    → off ≤ dp.size
    → put_entry has iblock off name inum dp s ≡ some (true, dp', s')
    → Extended s s' dp dp' off entry_size (λ k. get_or (new_entry name inum) k 0)
unfolding put_entry
put_entry-done has iblock off inum name dp dp' s s' h le e =
    let src : ℕ → ℕ = λ k. get_or (new_entry name inum) k 0 in
    let plain = directory-is_device dp.kind h.kind in
    let small = h.whole.within in
    elim (Bool-cases (ltb (maxfile * bsize) (off + entry_size))) [
      | inl past ↦
          let no_way =
            writei-refused has iblock off entry_size src dp s plain (omega arith) (omega arith)
              (let a : ltb dp.size off ≡ false = ground arith in rw (a, past) refl) in
          cc (rw (put_entry, no_way) at e)
      | inr fits ↦
          elim (writei-Extended has iblock off entry_size src dp s h.whole plain le
            (ground arith)) [
              | inl (stop, _) ↦ cc (rw (put_entry, stop) at e)
              | inr (r, got, x) ↦
                  let q : some (true, r.0, r.1) ≡ some (true, dp', s') = rw (put_entry, got) at e in
                  subst (λ (t : Bool × Inode × Store). Extended s t.2 dp t.1 off entry_size src)
                    (some-injective _ _ q) x
            ]
    ]

linked :
    (has : ℕ → Bool) (iblock inum off : ℕ) (name : List ℕ) (dp dp' : Inode) (s s' : Store)
    → IsDir s.disk dp
    → off % 16 ≡ 0
    → off ≤ dp.size
    → inum < 2 ^ 16
    → inum ≢ 0
    → NonePasses (matches name) s.disk dp 0
    → put_entry has iblock off name inum dp s ≡ some (true, dp', s')
    → IsDir s'.disk dp'
      × ((at : ℕ) × (dirlookup has name dp' s'.disk ≡ some (some (inum, at), dp', s'.disk)))
linked has iblock inum off name dp dp' s s' h al le lt nz absent e =
    let x = put_entry-done has iblock off inum name dp dp' s s' h le e in
    (
      after-IsDir name inum off dp dp' s s' h al le x,
      (off, finds_new name inum off dp dp' s s' h al le x has lt nz absent),
    )

-- After a name was linked to a number that is not 0 and fits 16 bits, looking it up finds that number,
-- and the directory is well-formed again.
pub dirlink-dirlookup :
    (has : ℕ → Bool) (iblock inum : ℕ) (name : List ℕ) (dp dp' : Inode) (s s' : Store)
    → IsDir s.disk dp
    → inum < 2 ^ 16
    → inum ≢ 0
    → dirlink has iblock name inum dp s ≡ some (true, dp', s')
    → IsDir s'.disk dp'
      × ((off : ℕ) × (dirlookup has name dp' s'.disk ≡ some (some (inum, off), dp', s'.disk)))
unfolding dirlink
dirlink-dirlookup has iblock inum name dp dp' s s' h lt nz e =
    elim (dirlookup_lem has name s.disk dp h) [
      | inl (at, found, f) ↦ cc (rw (dirlink, found) at e)
      | inr (absent, n) ↦
          elim (scan_lem has is_empty s.disk dp h dp.size 0 (omega arith) (omega arith)
            (omega arith)) [
              | inl (off, slot, f) ↦
                  linked has iblock inum off name dp dp' s s' h f.aligned
                    (let i = f.inside in omega arith) lt nz n (rw (dirlink, absent, slot) at e)
              | inr (slot, _) ↦
                  linked has iblock inum dp.size name dp dp' s s' h h.entries (omega arith) lt nz n
                    (rw (dirlink, absent, slot) at e)
            ]
    ]
