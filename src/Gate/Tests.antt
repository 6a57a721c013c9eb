-- ===== src/Gate/Tests.antt =====
-- The blocking of system calls at concrete flags.
use col.Base.{Bool, List, arith, false, pos, refl, replicate, set, some, true}
use col.Gate.{sys_block, syscall}
use col.Gate.Blocking.{IsLocked, here, next, blocks, Reach-IsLocked}

abbrev clear_flags : List Bool
clear_flags = replicate 32 false

-- the flags of a process that has blocked unblock
abbrev locked : List Bool
locked = set clear_flags 24 true

Reach-IsLocked_example : IsLocked (sys_block (some (pos 16)) locked).0
unfolding syscall
Reach-IsLocked_example =
    Reach-IsLocked (omega arith, refl) (next here (blocks (some (pos 16)) refl))
