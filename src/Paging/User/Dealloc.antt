-- ===== src/Paging/User/Dealloc.antt =====
-- The loop of `deallocuvm`.
use col.Base.{
  ◌∷◌, ap, Bool-cases, arith, false, true, inl, inr, leb, ltb, some, refl, subst, sym,
  if◌then◌else◌, suc, zero, ℕ, ◌%◌, ◌+◌, ◌∙◌, ◌≡◌, ◌<◌, ◌≤◌, ◌*◌, ◌^◌,
}
use col.Pages.{kernbase, pgroundup}
use col.Paging.{pdx, ptx, pte_addr, is_present, Memory, walkpgdir}
use col.Paging.Tree.{entry_of, entry_present, entry_absent}
use col.Paging.Walk.{Walked}
use col.Paging.Maps.{same_page}
use col.Paging.User.{release_entry, next_table, dealloc_from, deallocuvm}
use col.Paging.User.Space.{
  page_of, IsSpace, released, released-entries, released-IsSpace, release_entry_lem,
}
use col.Paging.User.Unmapped.{Unmapped, skip, join, nothing, same_page_lem, same_entry}

module _ (kernel_end limit oldsz pgdir : ℕ) (low : oldsz ≤ limit) (fits : limit ≤ kernbase) where
  abbrev Runs : (fuel a : ℕ) → Memory → Type 0
  Runs fuel a m =
      (m' : Memory) × (dealloc_from (suc fuel) kernel_end pgdir a oldsz m ≡ some m')
      × Unmapped kernel_end limit a oldsz pgdir m m'

  run_no_table :
      (fuel a : ℕ) (m : Memory)
      → a % 4096 ≡ 0
      → a < oldsz
      → is_present (m.words pgdir (pdx a)) ≡ false
      → Runs fuel (next_table a) m
      → Runs (suc fuel) a m
  unfolding dealloc_from walkpgdir
  run_no_table fuel a m al lt absent (m', e, u) =
      let below : ltb a oldsz ≡ true = ground arith in
      (
        m',
        rw (below, absent) e,
        skip kernel_end limit oldsz pgdir low fits a (next_table a) m m' (omega arith)
            (λ v h l.
              let same : pdx v ≡ pdx a = omega arith in
              ap is_present (
                entry_absent m pgdir v (m.words pgdir (pdx v)) refl
                  (ap (λ i. is_present (m.words pgdir i)) same ∙ absent)))
            u,
      )

  run_absent :
      (fuel a t : ℕ) (m : Memory)
      → a % 4096 ≡ 0
      → a < oldsz
      → walkpgdir pgdir a false m ≡ (m, some t)
      → m.words t (ptx a) ≡ entry_of m pgdir a
      → is_present (entry_of m pgdir a) ≡ false
      → Runs fuel (a + 4096) m
      → Runs (suc fuel) a m
  unfolding dealloc_from release_entry
  run_absent fuel a t m al lt walk at absent (m', e, u) =
      let below : ltb a oldsz ≡ true = ground arith in
      let next : (a + 4096) % 2 ^ 32 ≡ a + 4096 = omega arith in
      (
        m',
        rw (below, walk, at, absent)
            (subst (λ x. dealloc_from (suc fuel) kernel_end pgdir x oldsz m ≡ some m') (sym next)
              e),
        skip kernel_end limit oldsz pgdir low fits a (a + 4096) m m' (omega arith)
            (λ v h l.
              ap is_present
                (same_entry m pgdir a v (same_page_lem a v al (omega arith) (omega arith) h l))
              ∙ absent)
            u,
      )

  run_present :
      (fuel a t : ℕ) (m m1 : Memory)
      → a % 4096 ≡ 0
      → a < oldsz
      → walkpgdir pgdir a false m ≡ (m, some t)
      → release_entry kernel_end t a m ≡ some m1
      → ((v : ℕ) → entry_of m1 pgdir v ≡ (if same_page a v then 0 else entry_of m pgdir v))
      → m1.free ≡ page_of m pgdir a ∷ m.free
      → Runs fuel (a + 4096) m1
      → Runs (suc fuel) a m
  unfolding dealloc_from
  run_present fuel a t m m1 al lt walk done entries free (m', e, u) =
      let below : ltb a oldsz ≡ true = ground arith in
      let next : (a + 4096) % 2 ^ 32 ≡ a + 4096 = omega arith in
      (
        m',
        rw (below, walk, done)
            (subst (λ x. dealloc_from (suc fuel) kernel_end pgdir x oldsz m1 ≡ some m') (sym next)
              e),
        join kernel_end limit oldsz pgdir low fits a m m1 m' al lt entries free u,
      )

  found :
      (a : ℕ) (m : Memory)
      → is_present (m.words pgdir (pdx a)) ≡ true
      → walkpgdir pgdir a false m ≡ (m, some (pte_addr (m.words pgdir (pdx a))))
  unfolding walkpgdir
  found a m there = rw there refl

  run_table :
      (fuel a : ℕ) (m : Memory) (s : IsSpace kernel_end limit m pgdir)
      → a % 4096 ≡ 0
      → a < oldsz
      → is_present (m.words pgdir (pdx a)) ≡ true
      → ((m1 : Memory) → IsSpace kernel_end limit m1 pgdir → Runs fuel (a + 4096) m1)
      → Runs (suc fuel) a m
  run_table fuel a m s al lt there rest =
      let t : ℕ = pte_addr (m.words pgdir (pdx a)) in
      let w : Walked m m pgdir a t = record {
        tree = s.tree;
        there = there;
        table = refl;
        same = λ v. refl;
      } in
      let walk : walkpgdir pgdir a false m ≡ (m, some t) = found a m there in
      let at : m.words t (ptx a) ≡ entry_of m pgdir a =
        sym (entry_present m pgdir a (m.words pgdir (pdx a)) refl there) in
      elim (Bool-cases (is_present (entry_of m pgdir a))) [
        | inl here ↦
            let la : a < limit = omega arith in
            let m1 : Memory = released kernel_end limit m pgdir a t s la w here in
            run_present fuel a t m m1 al lt walk
              (release_entry_lem kernel_end limit m pgdir a t s la w here at)
              (released-entries kernel_end limit m pgdir a t s la w here) refl
              (rest m1 (released-IsSpace kernel_end limit m pgdir a t s la w here))
        | inr absent ↦ run_absent fuel a t m al lt walk at absent (rest m s)
      ]

  run :
      (fuel a : ℕ) (m : Memory)
      → a % 4096 ≡ 0
      → oldsz ≤ a + 4096 * fuel
      → IsSpace kernel_end limit m pgdir
      → Runs fuel a m
  unfolding dealloc_from
  run zero a m al enough s =
      let above : ltb a oldsz ≡ false = ground arith in
      (m, rw above refl, nothing kernel_end limit oldsz pgdir low fits a m (omega arith) al s)
  run (suc fuel) a m al enough s = elim (Bool-cases (ltb a oldsz)) [
    | inr e ↦ (m, rw e refl, nothing kernel_end limit oldsz pgdir low fits a m (ground arith) al s)
    | inl e ↦ elim (Bool-cases (is_present (m.words pgdir (pdx a)))) [
      | inl there ↦
          run_table fuel a m s al (ground arith) there
            (λ m1 s1. run fuel (a + 4096) m1 (omega arith) (omega arith) s1)
      | inr absent ↦
          let lt : a < oldsz = ground arith in
          run_no_table fuel a m al lt absent
            (run fuel (next_table a) m (omega arith) (omega arith) s)
    ]
  ]

-- In an address space where no physical page below `limit` has two uses, and every one there could have
-- come from kalloc, a call of deallocuvm that shrinks it from at most `limit`, which is not above KERNBASE, ends without a panic and
-- returns the new size. No page that begins between the new size, rounded up, and the old size is
-- mapped any more, and the physical pages that were mapped there are free; every other address is mapped as
-- it was, what was free still is, and still no page has two uses. The loop ends within its rounds also
-- where it jumps over missing tables.
pub deallocuvm-Unmapped :
    (kernel_end limit oldsz newsz pgdir : ℕ) (m : Memory)
    → IsSpace kernel_end limit m pgdir
    → newsz < oldsz
    → oldsz ≤ limit
    → limit ≤ kernbase
    → (m' : Memory) × (deallocuvm kernel_end pgdir oldsz newsz m ≡ some (m', newsz))
      × Unmapped kernel_end limit (pgroundup newsz) oldsz pgdir m m'
unfolding deallocuvm
deallocuvm-Unmapped kernel_end limit oldsz newsz pgdir m s lt low fits =
    let (m', e, u) =
      run kernel_end limit oldsz pgdir low fits (2 ^ 20) (pgroundup newsz) m (omega arith)
        (omega arith) s in
    let shrinks : leb oldsz newsz ≡ false = ground arith in (m', rw (shrinks, e) refl, u)
