-- ===== src/Lock/Exclusion.antt =====
-- What holds of a spinlock in every reachable state of the cpus.
use col.Base.{subst, Bool, arith, false, some, true, ℕ, ◌≡◌, ◌≢◌, refl}
use native.Mathlib.Decide.{ℕ_discrete}
use col.Lock.{
  ite, Call, Cpu, Pc, Reach, Step, System, Thread, init, inside, interrupts, later, moves, panicked,
  popcli, pops_other, pushcli, pushes_other, start, update,
}
use col.Lock.Moves.{
  owns, is_named, IsMisuse, IsTold, Local, Agrees, Move-Local, Move-Agrees, Move-Agrees_other,
  Move-owns,
}

record Inv (s : System) : Type 0 where
  alone : (i : ℕ) → Local (s.at_cpu i).others (s.at_cpu i).cpu (s.at_cpu i).pc
  agrees : (i : ℕ) → Agrees s.lock i (s.at_cpu i).pc
  unique : (i j : ℕ) → owns (s.at_cpu i).pc ≡ true → owns (s.at_cpu j).pc ≡ true → i ≡ j

Inv-init : Inv init
Inv-init = record {
  alone = λ i. ((refl, λ p. absurd (omega arith)), tt);
  agrees = λ i. (λ e. cc, λ e. cc, λ e. cc);
  unique = λ i j e f. cc;
}

named-owns : (p : Pc) → is_named p ≡ true → owns p ≡ true
named-owns p e = ground arith

update-all :
    (P : ℕ → Thread → Type 0) (f : ℕ → Thread) (i : ℕ) (t : Thread)
    → P i t
    → ((j : ℕ) → i ≢ j → P j (f j))
    → (j : ℕ) → P j (update f i t j)
update-all P f i t h rest j = elim (ℕ_discrete i j) as (λ d. P j (ite d t (f j))) [
  | yes e ↦ subst (λ k. P k t) e h
  | no ne ↦ rest j ne
]

-- A step that leaves the lock and the place of every cpu as they are.
Inv-same :
    {s : System} (i : ℕ) (c : Cpu) (others : ℕ)
    → Inv s
    → Local others c (s.at_cpu i).pc
    → Inv (record s {
      at_cpu = update s.at_cpu i (record { cpu = c; pc = (s.at_cpu i).pc; others = others });
    })
Inv-same {s} i c others inv l = record {
  alone = update-all (λ j t. Local t.others t.cpu t.pc) s.at_cpu i _ l (λ j _. inv.alone j);
  agrees =
      update-all (λ j t. Agrees s.lock j t.pc) s.at_cpu i _ (inv.agrees i) (λ j _. inv.agrees j);
  unique = λ j k oj ok. ground (arith, inv.unique j k, inv.unique i k, inv.unique j i);
}

Step-Inv : {s t : System} → Step s t → Inv s → Inv t
unfolding pushcli popcli
Step-Inv {s} (moves i {lk} {c} {p} mv) inv = record {
  alone =
      update-all (λ j t. Local t.others t.cpu t.pc) s.at_cpu i _
        (Move-Local _ mv (inv.agrees i) (inv.alone i)) (λ j _. inv.alone j);
  agrees =
      update-all (λ j t. Agrees lk j t.pc) s.at_cpu i _
        (Move-Agrees mv (inv.alone i).1 (inv.agrees i))
        (λ j ne.
          Move-Agrees_other j (s.at_cpu j).pc mv ne (inv.unique i j) (named-owns (s.at_cpu j).pc)
            (inv.agrees j));
  unique = λ j k oj ok. ground (
    arith,
    Move-owns mv (inv.alone i).1,
    inv.unique j k,
    inv.unique i k,
    inv.unique j i,
    (inv.agrees j).0,
    (inv.agrees k).0,
  );
}
Step-Inv {s} (pushes_other i) inv = Inv-same i _ _ inv (ground (arith, inv.alone i))
Step-Inv {s} (pops_other i h e) inv = Inv-same i _ _ inv (ground (arith, inv.alone i))
Step-Inv {s} (interrupts i on e) inv = Inv-same i _ _ inv (ground (arith, inv.alone i))

Reach-Inv : {s : System} → Reach s → Inv s
Reach-Inv start = Inv-init
Reach-Inv (later r st) = Step-Inv st (Reach-Inv r)

-- However the cpus interleave inside acquire, holding and release, while a cpu is between acquire and
-- release of the lock no other owns it, from the exchange that takes it to the store that frees it;
-- its interrupts are off, and the lock is taken and names it.
pub Reach-Exclusive :
    {s : System} (i j : ℕ)
    → Reach s
    → (s.at_cpu i).pc ≡ inside
    → owns (s.at_cpu j).pc ≡ true
    → (i ≡ j) × ((s.at_cpu i).cpu.flag ≡ false) × (s.lock.locked ≢ 0) × (s.lock.cpu ≡ some i)
Reach-Exclusive {s} i j r e o =
    let inv = Reach-Inv r in
    let alone = inv.alone i in
    let agrees = inv.agrees i in
    (inv.unique i j (ground arith) o, ground arith, ground arith, ground arith)

-- However the cpus interleave, a cpu that panics inside acquire held the lock when it called it, and
-- one that panics inside release did not: no other use of the lock panics, and no popcli inside does.
pub Reach-IsMisuse :
    {s : System} {k : Call} {owner : Bool} (i : ℕ)
    → Reach s
    → (s.at_cpu i).pc ≡ panicked k owner
    → IsMisuse k owner
Reach-IsMisuse {s} {k} {owner} i r e = let (_, told) = (Reach-Inv r).alone i in subst IsTold e told
