-- ===== src/Pages/Tests.antt =====
-- The page allocator with two pages.
use col.Base.{[], arith, refl, ◌∷◌}
use col.Pages.{Kmem, kalloc}
use col.Pages.Owners.{times, allocates, here, next, OwnedOnce, Reach-OwnedOnce}

abbrev kmem : Kmem
kmem = record { freelist = 0x80400000 ∷ 0x80401000 ∷ []; bytes = λ x. 0 }

kmem-OwnedOnce : OwnedOnce (kmem, [])
unfolding times
kmem-OwnedOnce x = ground arith

Reach-OwnedOnce_example : OwnedOnce (record kmem { freelist = 0x80401000 ∷ [] }, 0x80400000 ∷ [])
unfolding kalloc
Reach-OwnedOnce_example =
    Reach-OwnedOnce {kernel_end = 0x80115000} {s = (kmem, [])} kmem-OwnedOnce
      (next here (allocates [] 0x80400000 refl))
