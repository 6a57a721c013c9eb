-- ===== src/Cache/Tests.antt =====
-- The buffer cache at small caches.
use col.Base.{List, [], arith, count_up, none, refl, some, true, ◌∷◌}
use col.Cache.{Buf, zeroed, binit, use_cached, recycle, bget, renew, brelse}
use col.Cache.Unique.{Unique, booted, gets, releases, Run-Unique}
use col.Cache.Victim.{Kept, IsHeld, bget-Kept}

-- one buffer that was never used, and one that is pinned for block 7 of device 1
abbrev two : List Buf
two = zeroed 0 ∷ record (renew 1 7 (zeroed 1)) { dirty = true; refcnt = 0 } ∷ []

abbrev two_after : List Buf
two_after = renew 1 5 (zeroed 0) ∷ record (renew 1 7 (zeroed 1)) { dirty = true; refcnt = 0 } ∷ []

bget-Kept_example : Kept 1 5 two two_after × IsHeld 0 1 5 two_after
unfolding bget use_cached recycle
bget-Kept_example = bget-Kept 1 5 two two_after 0 refl

-- the cache after the first get
abbrev first : List Buf
first = elim (bget 1 5 binit) [ none ↦ [] | some r ↦ r.1 ]

Run-Unique_example : Unique (brelse 0 first)
unfolding bget use_cached recycle binit count_up
Run-Unique_example = Run-Unique (releases 0 (gets 1 5 0 booted (λ e. absurd (omega arith)) refl))
