-- ===== src/Str/Memory.antt =====
-- A flat memory of bytes.
use col.Base.{if◌then◌else◌, ℕ, ◌==◌}

abbrev pub Mem : Type 0
Mem = ℕ → ℕ

-- `*a = v`
abbrev pub put : Mem → ℕ → ℕ → Mem
put m a v x = if x == a then v else m x
