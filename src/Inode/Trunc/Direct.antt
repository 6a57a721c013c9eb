-- ===== src/Inode/Trunc/Direct.antt =====
-- The loop over the direct blocks in `itrunc` of fs.c.
use col.Base.{
  ap, ==_iff, Bool-cases, Option-cases, arith, inl, inr, none, refl, some, if◌then◌else◌, leb, ltb,
  ◌&&◌, zero, suc, length, set, length-set, get_or-set_ne, ℕ, ◌+◌, ◌<◌, ◌≤◌, ◌==◌, ◌∙◌, ◌≡◌,
}
use col.Disk.{Disk, bfree}
use col.Inode.{Inode, addr, put_addr}
use col.Inode.Words.{addr-put_addr}
use col.Inode.Trunc.{free_direct}
use col.Inode.Trunc.FreeAll.{free_all}

-- `count` addresses from `at` on are 0.
pub record Zeroed (ip ip' : Inode) (at count : ℕ) : Type 0 where
  pub zeroed : (j : ℕ) → addr ip' j ≡ (if leb at j && ltb j (at + count) then 0 else addr ip j)
  pub same_length : length ip'.addrs ≡ length ip.addrs
  pub same_fields : ip' ≡ record ip { addrs = ip'.addrs }

Zeroed-none : (ip : Inode) (at : ℕ) → Zeroed ip ip at 0
Zeroed-none ip at = record { zeroed = λ j. ground arith; same_length = refl; same_fields = refl }

Zeroed-skip :
    (ip ip' : Inode) (at count : ℕ)
    → addr ip at ≡ 0
    → Zeroed ip ip' (at + 1) count
    → Zeroed ip ip' at (suc count)
Zeroed-skip ip ip' at count z r = record {
  zeroed = λ j. r.zeroed j ∙ elim (Bool-cases (j == at)) [
    | inl e ↦ let same : j ≡ at = (==_iff j at).0 e in rw same (ground arith)
    | inr e ↦ ground arith
  ];
  same_length = r.same_length;
  same_fields = r.same_fields;
}

Zeroed-cons :
    (ip ip' : Inode) (at count : ℕ)
    → at < length ip.addrs
    → Zeroed (put_addr at 0 ip) ip' (at + 1) count
    → Zeroed ip ip' at (suc count)
Zeroed-cons ip ip' at count lt r = record {
  zeroed = λ j. r.zeroed j ∙ rw (addr-put_addr at j 0 ip lt) (ground arith);
  same_length = r.same_length ∙ length-set ip.addrs at 0;
  same_fields = r.same_fields;
}

-- The loop frees the blocks, and sets their addresses to 0.
pub free_direct_lem :
    (count at : ℕ) (B : ℕ → ℕ) (ip : Inode) (d d' : Disk)
    → ((j : ℕ) → at ≤ j → addr ip j ≡ B j)
    → at + count ≤ length ip.addrs
    → free_all count at B d ≡ some d'
    → (ip' : Inode) × (free_direct count at ip d ≡ some (ip', d')) × Zeroed ip ip' at count
unfolding free_direct free_all
free_direct_lem zero at B ip d d' same long e =
    (ip, ap (λ r. elim r [ none ↦ none | some x ↦ some (ip, x) ]) e, Zeroed-none ip at)
free_direct_lem (suc count) at B ip d d' same long e =
    let here : addr ip at ≡ B at = same at (omega arith) in
    elim (Bool-cases (B at == 0)) [
      | inl z ↦
          let step : free_all count (at + 1) B d ≡ some d' = rw z at e in
          let (ip', q, r) =
            free_direct_lem count (at + 1) B ip d d' (λ j lo. same j (omega arith)) (omega arith)
              step in
          (ip', rw (here, z) q, Zeroed-skip ip ip' at count (here ∙ (==_iff _ _).0 z) r)
      | inr nz ↦ elim (Option-cases (bfree (B at) d)) [
        | inl stop ↦ cc (rw (nz, stop) at e)
        | inr (d1, got) ↦
            let step : free_all count (at + 1) B d1 ≡ some d' = rw (nz, got) at e in
            let long' : at + 1 + count ≤ length (set ip.addrs at 0) =
              omega (arith, length-set ip.addrs at 0) in
            let (ip', q, r) =
              free_direct_lem count (at + 1) B (put_addr at 0 ip) d1 d'
                (λ j lo. get_or-set_ne ip.addrs at j 0 0 (λ x. omega arith) ∙ same j (omega arith))
                long' step in
            (ip', rw (here, nz, got) q, Zeroed-cons ip ip' at count (omega arith) r)
      ]
    ]
