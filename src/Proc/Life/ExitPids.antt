-- ===== src/Proc/Life/ExitPids.antt =====
-- Process ids through `exit` of proc.c.
use col.Base.{
  List, ap, arith, count_up-keeps, get_or, get_or-set_cases, inl, inr, length, refl, set, some,
  subst, sym, ℕ, ◌∙◌, ◌≡◌,
}
use col.Proc.{zombie, ptr, Proc, Kernel}
use col.Proc.Table.{slot, blank}
use col.Proc.Wake.{wakeup1}
use col.Proc.Life.{closed, pass_on, reparent, exit_table, exit, Metrics}
use col.Proc.Life.Exit.{pass_on_cases, moved, exit_inv}
use col.Proc.Life.Pids.{
  IsLive, PidsOk, Sub, Sub-refl, Sub-trans, Sub-set, Sub-PidsOk, wakeup1-slot, wakeup1-Sub,
}

pass_on-Sub : (cur initproc i : ℕ) (ps : List Proc) → Sub ps (pass_on cur initproc i ps)
pass_on-Sub cur initproc i ps =
    let moved : List Proc = set ps i (record (get_or ps i blank) { parent = ptr initproc }) in
    let step : Sub ps moved = Sub-set ps i _ (λ h. (h, refl)) in
    elim (pass_on_cases cur initproc i ps) [
      | inr (_, e) ↦ subst (Sub ps) (sym e) (Sub-refl ps)
      | inl (_, inr e) ↦ subst (Sub ps) (sym e) step
      | inl (_, inl e) ↦
          subst (Sub ps) (sym e) (Sub-trans ps moved _ step (wakeup1-Sub (ptr initproc) moved))
    ]

reparent-Sub : (cur initproc : ℕ) (ps : List Proc) → Sub ps (reparent cur initproc ps)
unfolding reparent
reparent-Sub cur initproc ps =
    count_up-keeps (λ i qs. Sub ps qs) (pass_on cur initproc) (length ps) 0 (length ps) ps
      (omega arith) (λ i qs lt f. Sub-trans ps qs _ f (pass_on-Sub cur initproc i qs)) (Sub-refl ps)

-- Slot by slot the same pid.
abbrev SamePids : List Proc → List Proc → Type 0
SamePids ps qs = (i : ℕ) → (get_or qs i blank).pid ≡ (get_or ps i blank).pid

SamePids-set :
    (ps : List Proc) (i : ℕ) (p : Proc) → p.pid ≡ (get_or ps i blank).pid → SamePids ps (set ps i p)
SamePids-set ps i p e j = elim (get_or-set_cases ps i j p blank) [
  | inl (ij, q) ↦ ap (λ x. x.pid) q ∙ e ∙ ap (λ x. (get_or ps x blank).pid) ij
  | inr q ↦ ap (λ x. x.pid) q
]

SamePids-wakeup1 : (chan : ℕ) (ps : List Proc) → SamePids ps (wakeup1 chan ps)
SamePids-wakeup1 chan ps i = rw wakeup1-slot (ground arith)

SamePids-pass_on : (cur initproc i : ℕ) (ps : List Proc) → SamePids ps (pass_on cur initproc i ps)
SamePids-pass_on cur initproc i ps j =
    let step = SamePids-set ps i (record (get_or ps i blank) { parent = ptr initproc }) refl j in
    elim (pass_on_cases cur initproc i ps) [
      | inr (_, e) ↦ ap (λ qs. (get_or qs j blank).pid) e
      | inl (_, inr e) ↦ ap (λ qs. (get_or qs j blank).pid) e ∙ step
      | inl (_, inl e) ↦
          ap (λ qs. (get_or qs j blank).pid) e
          ∙ SamePids-wakeup1 (ptr initproc) (moved initproc i ps) j
          ∙ step
    ]

SamePids-reparent : (cur initproc : ℕ) (ps : List Proc) → SamePids ps (reparent cur initproc ps)
unfolding reparent
SamePids-reparent cur initproc ps =
    count_up-keeps (λ i qs. SamePids ps qs) (pass_on cur initproc) (length ps) 0 (length ps) ps
      (omega arith) (λ i qs lt f j. SamePids-pass_on cur initproc i qs j ∙ f j) (λ j. refl)

exit_table-Sub : (cur : ℕ) (k : Kernel) → IsLive (slot k cur) → Sub k.ptable (exit_table cur k)
unfolding exit_table
exit_table-Sub cur k live =
    let shut : List Proc = set k.ptable cur (closed k.ticks (slot k cur)) in
    let told : List Proc = wakeup1 (slot k cur).parent shut in
    let passed : List Proc = reparent cur k.initproc told in
    let upto : Sub k.ptable passed =
      Sub-trans k.ptable told passed
        (Sub-trans k.ptable shut told
          (Sub-set k.ptable cur (closed k.ticks (slot k cur)) (λ h. (live, refl)))
          (wakeup1-Sub _ shut))
        (reparent-Sub cur k.initproc told) in
    let pid_kept : (get_or passed cur blank).pid ≡ (slot k cur).pid =
      SamePids-reparent cur k.initproc told cur
      ∙ SamePids-wakeup1 (slot k cur).parent shut cur
      ∙ SamePids-set k.ptable cur (closed k.ticks (slot k cur)) refl cur in
    λ i h.
      elim (get_or-set_cases passed cur i (record (get_or passed cur blank) { state = zombie })
        blank) [
          | inl (same, e) ↦
              subst
                (λ x.
                  IsLive (slot k x) × ((get_or (exit_table cur k) i blank).pid ≡ (slot k x).pid))
                same (live, ap (λ p. p.pid) e ∙ pid_kept)
          | inr e ↦ let (l, p) = upto i (subst IsLive e h) in (l, ap (λ x. x.pid) e ∙ p)
        ]

-- `exit` keeps process ids in order.
pub exit-PidsOk :
    (cur : ℕ) (k k' : Kernel) (m : Metrics)
    → PidsOk k
    → IsLive (slot k cur)
    → exit cur k ≡ some (k', m)
    → PidsOk k'
exit-PidsOk cur k k' m v live e =
    let (ne, same, next) = exit_inv cur k k' m e in
    Sub-PidsOk k k' v (subst (Sub k.ptable) (sym same) (exit_table-Sub cur k live)) (sym next)
