-- ===== src/Lock/Nesting.antt =====
-- `pushcli` and `popcli` nest.
use col.Base.{refl, ◌∙◌, arith, false, some, ◌<◌, ◌≡◌}
use col.Lock.{Cpu, pushcli, popcli}

-- Interrupts are off while a `pushcli` is open.
abbrev pub IsQuiet : Cpu → Type 0
IsQuiet c = 0 < c.ncli → c.flag ≡ false

-- A stretch of code in which every `pushcli` has its `popcli`, in nested order.
pub data Balanced : Cpu → Cpu → Type 0 where
  done : {c : Cpu} → Balanced c c
  nested :
      {c d e f : Cpu} → Balanced (pushcli c) d → popcli d ≡ some e → Balanced e f → Balanced c f

-- What such a stretch leaves: the depth, the interrupt flag, and under an open `pushcli` also the
-- remembered flag.
abbrev IsRestored : Cpu → Cpu → Type 0
IsRestored c d = (d.ncli ≡ c.ncli) × (d.flag ≡ c.flag) × (0 < c.ncli → d.intena ≡ c.intena)

popcli_lem :
    (c d e : Cpu) → IsQuiet c → IsRestored (pushcli c) d → popcli d ≡ some e → IsRestored c e
unfolding pushcli popcli
popcli_lem c d e q r h = ground (arith, q, r)

pushcli-IsQuiet : (c : Cpu) → IsQuiet (pushcli c)
unfolding pushcli
pushcli-IsQuiet c p = refl

-- From a cpu whose interrupts are off while a pushcli is open, any stretch of code in which each
-- pushcli has its popcli leaves the nesting depth and the interrupt flag as they were: interrupts that
-- were off stay off, and interrupts that were on come back with the last popcli.
pub Balanced-IsRestored :
    {c d : Cpu}
    → IsQuiet c
    → Balanced c d
    → (d.ncli ≡ c.ncli) × (d.flag ≡ c.flag) × (0 < c.ncli → d.intena ≡ c.intena)
Balanced-IsRestored q done = (refl, refl, λ _. refl)
Balanced-IsRestored {c} q (nested {d = d} {e = e} b h b') =
    let (depth, flag, saved) = popcli_lem c d e q (Balanced-IsRestored (pushcli-IsQuiet c) b) h in
    let (depth', flag', saved') = Balanced-IsRestored (λ p. flag ∙ q (omega arith)) b' in
    (depth' ∙ depth, flag' ∙ flag, λ p. saved' (omega arith) ∙ saved p)
