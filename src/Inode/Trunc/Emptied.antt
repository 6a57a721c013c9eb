-- ===== src/Inode/Trunc/Emptied.antt =====
-- The whole of `itrunc` in fs.c.
use col.Base.{
  ap, ==_iff, ==_ne, Bool-cases, arith, false, inl, inr, refl, some, some-injective, length,
  length-set, set, sym, true, ltb, ℕ, ◌+◌, ◌-◌, ◌<◌, ◌≤◌, ◌==◌, ◌∙◌, ◌≡◌, ◌≢◌,
}
use col.Disk.{Disk, to_log, bit}
use col.Disk.Bits.{IsBytes}
use col.Disk.Blocks.{bfree-Freed, bfree_used}
use col.Inode.{Inode, Store, addr, put_addr, word_at, ndirect, nindirect, maxfile, iupdate}
use col.Inode.Words.{word_at-ext, addr-put_addr}
use col.Inode.Mapped.{block_of, IsFile}
use col.Inode.Trunc.{free_direct, free_entries, free_blocks, itrunc}
use col.Inode.Trunc.FreeAll.{free_all, free_entries_lem, FreedAll, AreUsed, free_all-FreedAll}
use col.Inode.Trunc.Direct.{Zeroed, free_direct_lem}
use col.Inode.Trunc.Whole.{free_all_ext, free_all-zeros, free_all-split}

-- The inode has no blocks, its old ones are free, and no other block is touched.
pub record Emptied (d d' : Disk) (ip ip' : Inode) : Type 0 where
  pub file : IsFile d' ip'
  pub empty : (j : ℕ) → j ≤ ndirect → addr ip' j ≡ 0
  pub freed : (bn : ℕ) → bn < maxfile → block_of d ip bn ≢ 0 → bit d' (block_of d ip bn) ≡ 0
  pub freed_indirect : addr ip ndirect ≢ 0 → bit d' (addr ip ndirect) ≡ 0
  pub kept :
      (y : ℕ)
      → ((bn : ℕ) → bn < maxfile → block_of d ip bn ≢ 0 → block_of d ip bn ≢ y)
      → (addr ip ndirect ≢ 0 → addr ip ndirect ≢ y)
      → bit d' y ≡ bit d y
  pub same_bytes : (y i : ℕ) → d'.bytes y i ≡ d.bytes y i
  pub same_fields : ip' ≡ record ip { addrs = ip'.addrs }

layout-AreUsed : (d : Disk) (ip : Inode) → IsFile d ip → AreUsed d (block_of d ip) 0 maxfile
layout-AreUsed d ip f = record {
  used = λ j lo hi. f.layout.used j (omega arith);
  distinct = λ i j a b c e. f.layout.distinct i j (omega arith) (omega arith);
}

-- A file of no blocks.
no_blocks :
    (d d' : Disk) (ip ip' : Inode)
    → IsFile d ip
    → IsBytes d'
    → d'.size ≡ d.size
    → bit d' 0 ≡ bit d 0
    → length ip'.addrs ≡ length ip.addrs
    → ((j : ℕ) → j ≤ ndirect → addr ip' j ≡ 0)
    → IsFile d' ip'
no_blocks d d' ip ip' f v size boot long empty =
    let none_there : (j : ℕ) → block_of d' ip' j ≡ 0 = λ j. elim (Bool-cases (ltb j ndirect)) [
      | inl near ↦ rw near (empty j (ground arith))
      | inr far ↦ rw (far, empty ndirect (omega arith)) refl
    ] in
    record {
      long = long ∙ f.long;
      is_bytes = v;
      boot_used = λ e. f.boot_used (sym boot ∙ e);
      small = let t = f.small in omega (arith, size);
      layout = record {
        used = λ j lt ne. absurd (ne (none_there j));
        indirect_used = λ ne. absurd (ne (empty ndirect (omega arith)));
        distinct = λ j k lj lk ne e. absurd (ne (none_there j));
        apart = λ j lt ne e. absurd (ne (none_there j));
      };
    }

-- The disks on the way of `free_blocks`: after the direct blocks, and after those of the indirect block.
module _ (d d1 d2 : Disk) (ip : Inode) (f : IsFile d ip)
    (e1 : free_all ndirect 0 (block_of d ip) d ≡ some d1)
    (e2 : free_all nindirect ndirect (block_of d ip) d1 ≡ some d2)
    (r : FreedAll d d2 (block_of d ip) 0 maxfile)
    (r1 : (y i : ℕ) → d1.bytes y i ≡ d.bytes y i) where
  direct_loop :
      (ip' : Inode) × (free_direct ndirect 0 ip d ≡ some (ip', d1)) × Zeroed ip ip' 0 ndirect
  direct_loop =
      free_direct_lem ndirect 0 (addr ip) ip d d1 (λ j lo. refl) (let l = f.long in omega arith)
        (free_all_ext ndirect 0 0 (addr ip) (block_of d ip) d
            (λ k lt. let t : ltb (0 + k) ndirect ≡ true = ground arith in rw t refl)
          ∙ e1)

  entries_loop :
      addr ip ndirect ≢ 0 → free_entries nindirect 0 (d1.bytes (addr ip ndirect)) d1 ≡ some d2
  entries_loop ne =
      free_entries_lem nindirect 0 (d1.bytes (addr ip ndirect)) d1
      ∙ free_all_ext nindirect 0 ndirect (word_at (d1.bytes (addr ip ndirect))) (block_of d ip) d1
          (λ k lt.
            let far : ltb (ndirect + k) ndirect ≡ false = ground arith in
            let i : ndirect + k - ndirect ≡ 0 + k = omega arith in
            rw (far, ==_ne (addr ip ndirect) 0 ne, i)
              (word_at-ext (d1.bytes (addr ip ndirect)) (d.bytes (addr ip ndirect)) (0 + k)
                (r1 (addr ip ndirect))))
      ∙ e2

  -- The boot block is none of those freed.
  boot_kept : bit d2 0 ≡ bit d 0
  boot_kept = r.kept 0 (λ j lo hi ne e. ne e)

  -- Without an indirect block.
  pub small_Emptied :
      addr ip ndirect ≡ 0
      → (ip' : Inode) × (d' : Disk) × (free_blocks ip d ≡ some (ip', d')) × Emptied d d' ip ip'
  unfolding free_blocks
  small_Emptied z =
      let (ip', e, zs) = direct_loop in
      let last : addr ip' ndirect ≡ 0 = zs.zeroed ndirect ∙ z in
      let empty : (j : ℕ) → j ≤ ndirect → addr ip' j ≡ 0 = λ j le.
        elim (Bool-cases (j == ndirect)) [
          | inl q ↦ let same : j ≡ ndirect = (==_iff _ _).0 q in ap (addr ip') same ∙ last
          | inr q ↦ zs.zeroed j ∙ ground arith
        ] in
      let rest : free_all nindirect ndirect (block_of d ip) d1 ≡ some d1 =
        free_all-zeros nindirect ndirect (block_of d ip) d1
          (λ k lo. let far : ltb k ndirect ≡ false = ground arith in rw (far, z) refl) in
      let same : d1 ≡ d2 = some-injective _ _ (sym rest ∙ e2) in
      (
        ip',
        d2,
        rw (free_blocks, e, last) (ap (λ x. some (ip', x)) same),
        record {
          file = no_blocks d d2 ip ip' f r.is_bytes r.size_eq boot_kept zs.same_length empty;
          empty = empty;
          freed = λ bn lt. r.gone bn (omega arith) lt;
          freed_indirect = λ ne. absurd (ne z);
          kept = λ y h _. r.kept y (λ j lo hi. h j hi);
          same_bytes = r.same_bytes;
          same_fields = zs.same_fields;
        },
      )

  -- With an indirect block.
  pub large_Emptied :
      addr ip ndirect ≢ 0
      → (ip' : Inode) × (d' : Disk) × (free_blocks ip d ≡ some (ip', d')) × Emptied d d' ip ip'
  unfolding free_blocks
  large_Emptied ne =
      let (ip', e, zs) = direct_loop in
      let last : addr ip' ndirect ≡ addr ip ndirect = zs.zeroed ndirect in
      let nz : (addr ip ndirect == 0) ≡ false = ==_ne _ 0 ne in
      let there : bit d2 (addr ip ndirect) ≡ bit d (addr ip ndirect) =
        r.kept (addr ip ndirect) (λ j lo hi. f.layout.apart j hi) in
      let (d3, got) =
        bfree_used (addr ip ndirect) d2 (λ q. f.layout.indirect_used ne (sym there ∙ q)) in
      let fr = bfree-Freed (addr ip ndirect) d2 d3 r.is_bytes got in
      let away : (y : ℕ) → addr ip ndirect ≢ y → bit d3 y ≡ bit d2 y =
        λ y apart. fr.cleared y ∙ rw (==_ne y (addr ip ndirect) (λ q. apart (sym q))) refl in
      let self : (addr ip ndirect == addr ip ndirect) ≡ true = (==_iff _ _).1 refl in
      let put = λ (j : ℕ).
        addr-put_addr ndirect j 0 ip' (let a = zs.same_length in let b = f.long in omega arith) in
      let empty : (j : ℕ) → j ≤ ndirect → addr (put_addr ndirect 0 ip') j ≡ 0 = λ j le.
        put j ∙ elim (Bool-cases (j == ndirect)) [
          | inl q ↦ rw q refl
          | inr q ↦ rw q (zs.zeroed j ∙ ground arith)
        ] in
      (
        put_addr ndirect 0 ip',
        d3,
        rw (free_blocks, e, last, nz, entries_loop ne, last, got) refl,
        record {
          file =
              no_blocks d d3 ip (put_addr ndirect 0 ip') f fr.is_bytes (fr.size_eq ∙ r.size_eq)
                (away 0 ne ∙ boot_kept) (length-set ip'.addrs ndirect 0 ∙ zs.same_length) empty;
          empty = empty;
          freed = λ bn lt n.
              away (block_of d ip bn) (λ q. f.layout.apart bn lt n (sym q))
              ∙ r.gone bn (omega arith) lt n;
          freed_indirect = λ _. fr.cleared (addr ip ndirect) ∙ rw self refl;
          kept = λ y h g. away y (g ne) ∙ r.kept y (λ j lo hi. h j hi);
          same_bytes = λ y i. fr.kept y i ∙ r.same_bytes y i;
          same_fields =
              ap (λ (i : Inode). record i { addrs = set ip'.addrs ndirect 0 }) zs.same_fields;
        },
      )

free_blocks-Emptied :
    (d : Disk) (ip : Inode)
    → IsFile d ip
    → (ip' : Inode) × (d' : Disk) × (free_blocks ip d ≡ some (ip', d')) × Emptied d d' ip ip'
free_blocks-Emptied d ip f =
    let u = layout-AreUsed d ip f in
    let (d2, e, r) = free_all-FreedAll maxfile 0 (block_of d ip) d f.is_bytes u in
    let (d1, e1, e2) = free_all-split ndirect nindirect 0 (block_of d ip) d d2 e in
    let (d1', e1', r1) = free_all-FreedAll ndirect 0 (block_of d ip) d f.is_bytes (record {
      used = λ j lo hi. u.used j lo (omega arith);
      distinct = λ i j a b c h. u.distinct i j a (omega arith) c (omega arith);
    }) in
    let same : d1' ≡ d1 = some-injective _ _ (sym e1' ∙ e1) in
    let bytes : (y i : ℕ) → d1.bytes y i ≡ d.bytes y i =
      λ y i. ap (λ (x : Disk). x.bytes y i) (sym same) ∙ r1.same_bytes y i in
    elim (Bool-cases (addr ip ndirect == 0)) [
      | inl z ↦ small_Emptied d d1 d2 ip f e1 e2 r bytes ((==_iff _ _).0 z)
      | inr nz ↦ large_Emptied d d1 d2 ip f e1 e2 r bytes (λ q. cc ((==_iff _ _).1 q))
    ]

logged :
    (d d' : Disk) (ip ip' : Inode) (iblock : ℕ)
    → Emptied d d' ip ip'
    → Emptied d (to_log iblock d') ip ip'
logged d d' ip ip' iblock r = record {
  file =
      let f = r.file in
      record {
        long = f.long;
        is_bytes = f.is_bytes;
        boot_used = f.boot_used;
        small = f.small;
        layout =
            let l = f.layout in
            record {
              used = l.used;
              indirect_used = l.indirect_used;
              distinct = l.distinct;
              apart = l.apart;
            };
      };
  empty = r.empty;
  freed = r.freed;
  freed_indirect = r.freed_indirect;
  kept = r.kept;
  same_bytes = r.same_bytes;
  same_fields = r.same_fields;
}

-- A call of `itrunc` on a well-formed file meets no panic of `bfree`. Where the log has room for its
-- calls of `log_write`, it frees each block of the file and the indirect block, and no other; it leaves
-- the contents of all blocks; and the inode then has no blocks, size 0 and is on the disk so.
pub itrunc-Emptied :
    (iblock : ℕ) (ip : Inode) (s : Store)
    → IsFile s.disk ip
    → (ip' : Inode) × (s' : Store) × (itrunc iblock ip s ≡ some (record ip' { size = 0 }, s'))
      × Emptied s.disk s'.disk ip ip'
      × (s'.stored ≡ record ip' { size = 0 })
unfolding itrunc
itrunc-Emptied iblock ip s f =
    let (ip', d', e, r) = free_blocks-Emptied s.disk ip f in
    (
      ip',
      iupdate iblock (record ip' { size = 0 }) (record s { disk = d' }),
      rw (itrunc, e) refl,
      logged s.disk d' ip ip' iblock r,
      refl,
    )
