-- ===== src/Paging/User/Unmapped.antt =====
-- The part of an address space that `deallocuvm` has cleared.
use col.Base.{
  ap₂, both_true, ◌∷◌, ap, Bool-cases, arith, false, true, inl, inr, ltb, refl, subst, sym,
  if◌then◌else◌, ℕ, ◌%◌, ◌+◌, ◌==◌, ◌∙◌, ◌≡◌, ◌⊎◌, ◌<◌, ◌≤◌, ◌/◌, ◌*◌, ◌^◌, ==_iff,
}
use col.Pages.{kernbase}
use col.Paging.{pdx, ptx, pte_addr, is_present, Memory}
use col.Paging.Tree.{entry_of, IsFree}
use col.Paging.Maps.{same_page}
use col.Paging.User.Space.{page_of, IsMapped, IsSpace}

-- The addresses of the pages from `a` on that begin below `oldsz` are not mapped any more, and the pages
-- that they had are free; other addresses are mapped as before.
pub record Unmapped (kernel_end limit a oldsz pgdir : ℕ) (m m' : Memory) : Type 0 where
  pub space : IsSpace kernel_end limit m' pgdir
  pub gone : (v : ℕ) → a ≤ v → v / 4096 * 4096 < oldsz → is_present (entry_of m' pgdir v) ≡ false
  pub kept :
      (v : ℕ)
      → v < 2 ^ 32
      → (v < a) ⊎ (oldsz ≤ v / 4096 * 4096)
      → entry_of m' pgdir v ≡ entry_of m pgdir v
  pub reclaimed :
      (v : ℕ)
      → a ≤ v
      → v / 4096 * 4096 < oldsz
      → IsMapped m pgdir v
      → IsFree m'.free (page_of m pgdir v)
  pub still_free : (x : ℕ) → IsFree m.free x → IsFree m'.free x

pub same_page_lem :
    (a v : ℕ) → a % 4096 ≡ 0 → a < 2 ^ 32 → v < 2 ^ 32 → a ≤ v → v < a + 4096 → same_page a v ≡ true
same_page_lem a v al la lv le lt = ground arith

other_page_lem :
    (a v : ℕ)
    → a % 4096 ≡ 0
    → a < 2 ^ 32
    → v < 2 ^ 32
    → (v < a) ⊎ (a + 4096 ≤ v)
    → same_page a v ≡ false
other_page_lem a v al la lv either = ground arith

pub same_entry :
    (m : Memory) (pgdir a v : ℕ) → same_page a v ≡ true → entry_of m pgdir v ≡ entry_of m pgdir a
same_entry m pgdir a v e =
    let (i, j) = both_true (pdx v == pdx a) (ptx v == ptx a) e in
    ap₂ (λ x y. if is_present (m.words pgdir x) then m.words (pte_addr (m.words pgdir x)) y else 0)
      ((==_iff (pdx v) (pdx a)).0 i) ((==_iff (ptx v) (ptx a)).0 j)

module _ (kernel_end limit oldsz pgdir : ℕ) (low : oldsz ≤ limit) (fits : limit ≤ kernbase) where
  -- Nothing to do for the addresses from `a` to `b`.
  pub skip :
      (a b : ℕ) (m m' : Memory)
      → a ≤ b
      → ((v : ℕ) → a ≤ v → v < b → is_present (entry_of m pgdir v) ≡ false)
      → Unmapped kernel_end limit b oldsz pgdir m m'
      → Unmapped kernel_end limit a oldsz pgdir m m'
  skip a b m m' le none_mapped u = record {
    space = u.space;
    gone = λ v h l. elim (Bool-cases (ltb v b)) [
      | inl e ↦
          ap is_present (u.kept v (omega arith) (inl (ground arith)))
          ∙ none_mapped v h (ground arith)
      | inr e ↦ u.gone v (ground arith) l
    ];
    kept = λ v lv either. elim either [
      | inl below ↦ u.kept v lv (inl (omega arith))
      | inr above ↦ u.kept v lv (inr above)
    ];
    reclaimed = λ v h l p. elim (Bool-cases (ltb v b)) [
      | inl e ↦ cc (sym p ∙ none_mapped v h (ground arith))
      | inr e ↦ u.reclaimed v (ground arith) l p
    ];
    still_free = u.still_free;
  }

  -- The page of `a` is released, and then those from the next on.
  pub join :
      (a : ℕ) (m m1 m' : Memory)
      → a % 4096 ≡ 0
      → a < oldsz
      → ((v : ℕ) → entry_of m1 pgdir v ≡ (if same_page a v then 0 else entry_of m pgdir v))
      → m1.free ≡ page_of m pgdir a ∷ m.free
      → Unmapped kernel_end limit (a + 4096) oldsz pgdir m1 m'
      → Unmapped kernel_end limit a oldsz pgdir m m'
  join a m m1 m' al lt entries free u = record {
    space = u.space;
    gone = λ v h l. elim (Bool-cases (ltb v (a + 4096))) [
      | inl e ↦
          let q : entry_of m1 pgdir v ≡ 0 = entries v ∙ rw (here v h l e) refl in
          ap is_present (u.kept v (omega arith) (inl (ground arith)) ∙ q)
      | inr e ↦ u.gone v (ground arith) l
    ];
    kept = λ v lv either.
        let off : same_page a v ≡ false =
          other_page_lem a v al (omega arith) lv
            (elim either [ inl below ↦ inl below | inr above ↦ inr (omega arith) ]) in
        (elim either [
          | inl below ↦ u.kept v lv (inl (omega arith))
          | inr above ↦ u.kept v lv (inr above)
        ])
        ∙ entries v
        ∙ rw off refl;
    reclaimed = λ v h l p. elim (Bool-cases (ltb v (a + 4096))) [
      | inl e ↦
          let same : entry_of m pgdir v ≡ entry_of m pgdir a =
            same_entry m pgdir a v (here v h l e) in
          u.still_free (page_of m pgdir v)
            (subst (λ ps. IsFree ps (page_of m pgdir v)) (sym free) (inl (ap pte_addr same)))
      | inr e ↦
          let q : entry_of m1 pgdir v ≡ entry_of m pgdir v =
            entries v
            ∙ rw (other_page_lem a v al (omega arith) (omega arith) (inr (ground arith))) refl in
          subst (λ x. IsFree m'.free (pte_addr x)) q
            (u.reclaimed v (ground arith) l (ap is_present q ∙ p))
    ];
    still_free = λ x f. u.still_free x (subst (λ ps. IsFree ps x) (sym free) (inr f));
  }
    where
      here :
          (v : ℕ) → a ≤ v → v / 4096 * 4096 < oldsz → ltb v (a + 4096) ≡ true → same_page a v ≡ true
      here v h l e = same_page_lem a v al (omega arith) (omega arith) h (ground arith)

  pub nothing :
      (a : ℕ) (m : Memory)
      → oldsz ≤ a
      → a % 4096 ≡ 0
      → IsSpace kernel_end limit m pgdir
      → Unmapped kernel_end limit a oldsz pgdir m m
  nothing a m le al s = record {
    space = s;
    gone = λ v h l. absurd (omega arith);
    kept = λ v lv either. refl;
    reclaimed = λ v h l p. absurd (omega arith);
    still_free = λ x f. f;
  }
