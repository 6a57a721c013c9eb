-- ===== src/History/Tests.antt =====
-- A history of three processes.
use col.Base.{List, [], if◌then◌else◌, some, true, ℕ, ◌==◌, ◌∷◌, ◌≡◌}
use col.History.{Entry, gethistory_actual}
use col.History.Sorting.{SortedFrom, total, gethistory_actual-SortedFrom}

abbrev entry : ℕ → Entry
entry pid = record { pid = pid; name = b'l' ∷ b's' ∷ []; total_memory = 12288 }

abbrev history : List Entry
history = entry 5 ∷ entry 3 ∷ entry 4 ∷ []

gethistory_actual-SortedFrom_example :
    let (after, answer) = gethistory_actual true history in
    SortedFrom 1 after
    × (total (λ e. if e.pid == 3 then 1 else 0) after
        ≡ total (λ e. if e.pid == 3 then 1 else 0) history)
    × (answer ≡ some 3)
gethistory_actual-SortedFrom_example =
    gethistory_actual-SortedFrom true history (λ e. if e.pid == 3 then 1 else 0)
