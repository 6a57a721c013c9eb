-- ===== src/History.antt =====
-- The process history of xv6-public_1: what `exit` in proc.c records, and `gethistory_actual` in exec.c,
-- which sorts the records by process id. The list is `hist_arr` up to `hist_count`.
pub mod Sorting
mod Tests
use col.Base.{
  Bool, List, Option, [], if◌then◌else◌, length, ltb, none, some, suc, zero, ℕ, ◌&&◌, ◌++◌, ◌-◌,
  ◌∷◌,
}

abbrev pub max_limit : ℕ
max_limit = 64

-- `struct history_struct`; nothing sets its creation time.
pub record Entry : Type 0 where
  pub pid : ℕ
  pub name : List ℕ
  pub total_memory : ℕ

-- The part of `exit` for a process whose field `check` is `check`.
pub record_exit : (check : Bool) → Entry → List Entry → List Entry
record_exit check e hist = if ltb (length hist) max_limit && check then hist ++ (e ∷ []) else hist

-- The inner loop with `m` rounds to go, from the first entry of the list on.
pub bubble : ℕ → List Entry → List Entry
bubble zero hist = hist
bubble (suc m) [] = []
bubble (suc m) (x ∷ []) = x ∷ []
bubble (suc m) (x ∷ y ∷ hist) =
    let swapped = y ∷ bubble m (x ∷ hist) in
    let kept = x ∷ bubble m (y ∷ hist) in if ltb y.pid x.pid then swapped else kept

-- The outer loop: its inner loops have `m` rounds, then `m - 1`, down to 1.
pub sort_hist : ℕ → List Entry → List Entry
sort_hist zero hist = hist
sort_hist (suc m) hist = sort_hist m (bubble (suc m) hist)

-- The history afterwards, and the count, or `none` where `copyout` fails (`copied` is false).
pub gethistory_actual : (copied : Bool) → List Entry → List Entry × Option ℕ
gethistory_actual copied hist =
    (sort_hist (length hist - 1) hist, if copied then some (length hist) else none)
