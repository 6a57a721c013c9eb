-- ===== src/Args/Tests.antt =====
-- The theorems on arguments at a small process.
use col.Base.{
  [], ◌∷◌, arith, pos, refl, replicate, get_or, if◌then◌else◌, ℕ, ◌+◌, ◌<◌, ◌==◌, ◌≡◌, ◌≢◌, ◌≤◌,
}
use col.Proc.{Proc}
use col.Proc.Table.{blank}
use col.Args.{nofile, fetchint, argint, argptr, argfd, io_args, signed}
use col.Args.Fetch.{stack_word, io_args_lem}

-- A process with descriptors 0 and 1 open, and on its stack 0, 50 and 10.
abbrev caller : Proc
caller = record blank {
  sz = 100;
  tf = record { eax = 0; esp = 20; eip = 0; others = [] };
  ofile = 7 ∷ 8 ∷ replicate 14 0;
}

abbrev memory : ℕ → ℕ
memory a = if a == 28 then 50 else if a == 32 then 10 else 0

io_args_lem_example :
    ((stack_word caller memory 0 < nofile)
      × (get_or caller.ofile (stack_word caller memory 0) 0 ≡ 7)
      × (◌≢◌ {A = ℕ} 7 0))
    × (pos 10 ≡ signed (stack_word caller memory 2))
    × (50 ≡ stack_word caller memory 1)
    × ((k : ℕ) × (pos 10 ≡ pos k) × (50 < caller.sz) × (50 + k ≤ caller.sz))
unfolding io_args argfd argint argptr fetchint
io_args_lem_example = io_args_lem caller memory 7 50 (pos 10) (omega arith) refl
