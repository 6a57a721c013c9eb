-- ===== src/Pages/Owners.antt =====
-- The owners of pages, through the calls of kalloc.c.
use col.Base.{
  sym, Bool-cases, ap, inl, inr, List, [], arith, if◌then◌else◌, some, ℕ, ◌++◌, ◌+◌, ◌==◌, ◌∷◌, ◌≡◌,
  ◌≤◌,
}
use col.Str.{memset}
use col.Pages.{hand_out, pgsize, is_bad, Kmem, kfree, kalloc}

-- How often a page is in a list.
unfoldable pub times : ℕ → List ℕ → ℕ
times x [] = 0
times x (y ∷ ys) = (if x == y then 1 else 0) + times x ys

-- One call, with the pages that are allocated before and after it. A page is freed by its owner.
pub data Step (kernel_end : ℕ) : Kmem × List ℕ → Kmem × List ℕ → Type 0 where
  allocates :
      {k k' : Kmem} (owned : List ℕ) (p : ℕ)
      → kalloc k ≡ (k', some p)
      → Step kernel_end (k, owned) (k', p ∷ owned)
  frees :
      {k k' : Kmem} (before after : List ℕ) (p : ℕ)
      → kfree kernel_end p k ≡ some k'
      → Step kernel_end (k, before ++ p ∷ after) (k', before ++ after)

pub data Reach (kernel_end : ℕ) (s : Kmem × List ℕ) : Kmem × List ℕ → Type 0 where
  here : Reach kernel_end s s
  next : {t u : Kmem × List ℕ} → Reach kernel_end s t → Step kernel_end t u → Reach kernel_end s u

-- Each page is free once, or allocated once, or neither.
abbrev pub OwnedOnce : Kmem × List ℕ → Type 0
OwnedOnce (k, owned) = (x : ℕ) → times x k.freelist + times x owned ≤ 1

times-append : (x : ℕ) (xs ys : List ℕ) → times x (xs ++ ys) ≡ times x xs + times x ys
unfolding times
times-append x [] ys = omega arith
times-append x (z ∷ xs) ys = ground (arith, times-append x xs ys)

hand_out-times :
    (xs : List ℕ) (k k' : Kmem) (p x : ℕ)
    → hand_out xs k ≡ (k', some p)
    → times x xs ≡ times x (p ∷ k'.freelist)
unfolding times
hand_out-times [] k k' p x e = cc (ap (λ r. r.1) e)
hand_out-times (r ∷ rest) k k' p x e =
    let same : some r ≡ some p = ap (λ t. t.1) e in
    ground (arith, same, ap (λ t. times x t.0.freelist) e)

kfree-times :
    (kernel_end p : ℕ) (k k' : Kmem) (x : ℕ)
    → kfree kernel_end p k ≡ some k'
    → times x k'.freelist ≡ times x (p ∷ k.freelist)
unfolding kfree times
kfree-times kernel_end p k k' x e = elim (Bool-cases (is_bad kernel_end p)) [
  | inl bad ↦ absurd (ground arith)
  | inr good ↦
      let q : record { freelist = p ∷ k.freelist; bytes = memset p 1 pgsize k.bytes } ≡ k' =
        ground arith in
      sym (ap (λ (m : Kmem). times x m.freelist) q)
]

Step-OwnedOnce :
    {kernel_end : ℕ} {s t : Kmem × List ℕ} → Step kernel_end s t → OwnedOnce s → OwnedOnce t
unfolding times kalloc
Step-OwnedOnce (allocates {k} {k'} owned p e) h x =
    omega (arith, hand_out-times k.freelist k k' p x e, h x)
Step-OwnedOnce {kernel_end} (frees {k} {k'} before after p e) h x = omega (
  arith,
  kfree-times kernel_end p k k' x e,
  h x,
  times-append x before (p ∷ after),
  times-append x before after,
)

-- Through whatever sequence of allocations, and frees of allocated pages, no page is handed out
-- while it is allocated, nor is it in the free list twice, when this was so at the start.
pub Reach-OwnedOnce :
    {kernel_end : ℕ} {s t : Kmem × List ℕ} → OwnedOnce s → Reach kernel_end s t → OwnedOnce t
Reach-OwnedOnce h here x = h x
Reach-OwnedOnce h (next r s) x = Step-OwnedOnce s (Reach-OwnedOnce h r) x
