-- ===== src/Proc/Life/Pids.antt =====
-- Process ids of live slots in proc.c, through the scans of the table.
use col.Base.{
  ap, true, ◌&&◌, ◌⊎◌, ◌==◌, Bool-cases, ◌+◌, ◌||◌, Bool, List, [], arith, false, get_or,
  get_or-set_cases, inl, inr, refl, set, subst, suc, sym, zero, ℕ, ◌<◌, ◌∙◌, ◌∷◌, ◌≡◌,
}
use col.Proc.{unused, zombie, is_state, ptr, Proc, Kernel}
use col.Proc.Table.{slot, put_slot, blank}
use col.Proc.Wake.{wake_one, wakeup1, kill_one, kill_scan, start_all}
use col.Proc.Life.{clear, wait_scan}

abbrev pub IsLive : Proc → Type 0
IsLive p = is_state p.state unused ≡ false

pub record PidsOk (k : Kernel) : Type 0 where
  pub below : (i : ℕ) → IsLive (slot k i) → (slot k i).pid < k.nextpid
  pub unique :
      (i j : ℕ) → IsLive (slot k i) → IsLive (slot k j) → (slot k i).pid ≡ (slot k j).pid → i ≡ j

-- What is live in the second table was live in the first, under the same pid.
abbrev pub Sub : List Proc → List Proc → Type 0
Sub ps qs =
    (i : ℕ)
    → IsLive (get_or qs i blank)
    → IsLive (get_or ps i blank) × ((get_or qs i blank).pid ≡ (get_or ps i blank).pid)

pub Sub-refl : (ps : List Proc) → Sub ps ps
Sub-refl ps i h = (h, refl)

pub Sub-trans : (ps qs rs : List Proc) → Sub ps qs → Sub qs rs → Sub ps rs
Sub-trans ps qs rs f g i h = let (h', e) = g i h in let (h'', e') = f i h' in (h'', e ∙ e')

pub Sub-PidsOk :
    (k k' : Kernel) → PidsOk k → Sub k.ptable k'.ptable → k.nextpid ≡ k'.nextpid → PidsOk k'
Sub-PidsOk k k' v f e = record {
  below = λ i h.
      let (h', p) = f i h in
      subst (λ x. x < k'.nextpid) (sym p) (subst (λ n. (slot k i).pid < n) e (v.below i h'));
  unique = λ i j hi hj q.
      let (hi', pi) = f i hi in let (hj', pj) = f j hj in v.unique i j hi' hj' (sym pi ∙ q ∙ pj);
}

pub Sub-set :
    (ps : List Proc) (i : ℕ) (p : Proc)
    → (IsLive p → IsLive (get_or ps i blank) × (p.pid ≡ (get_or ps i blank).pid))
    → Sub ps (set ps i p)
Sub-set ps i p f j h = elim (get_or-set_cases ps i j p blank) [
  | inr e ↦
      subst (λ q. IsLive (get_or ps j blank) × (q.pid ≡ (get_or ps j blank).pid)) (sym e)
        (subst IsLive e h, refl)
  | inl (ij, e) ↦
      subst (λ q. IsLive (get_or ps j blank) × (q.pid ≡ (get_or ps j blank).pid)) (sym e)
        (subst (λ m. IsLive (get_or ps m blank) × (p.pid ≡ (get_or ps m blank).pid)) ij
          (f (subst IsLive e h)))
]

-- Tables changed slot by slot by a function that makes nothing live and keeps the pid.
Sub-pointwise :
    (ps qs : List Proc) (f : Proc → Proc)
    → ((i : ℕ) → get_or qs i blank ≡ f (get_or ps i blank))
    → ((p : Proc) → IsLive (f p) → IsLive p × ((f p).pid ≡ p.pid))
    → Sub ps qs
Sub-pointwise ps qs f e g i h =
    subst (λ q. IsLive (get_or ps i blank) × (q.pid ≡ (get_or ps i blank).pid)) (sym (e i))
      (g (get_or ps i blank) (subst IsLive (e i) h))

pub wakeup1-slot :
    (chan : ℕ) (ps : List Proc) (i : ℕ)
    → get_or (wakeup1 chan ps) i blank ≡ wake_one chan (get_or ps i blank)
unfolding wakeup1
wakeup1-slot chan [] i = refl
wakeup1-slot chan (p ∷ ps) zero = refl
wakeup1-slot chan (p ∷ ps) (suc i) = wakeup1-slot chan ps i

wake_one-IsLive :
    (chan : ℕ) (p : Proc) → IsLive (wake_one chan p) → IsLive p × ((wake_one chan p).pid ≡ p.pid)
wake_one-IsLive chan p h = (ground arith, ground arith)

pub wakeup1-Sub : (chan : ℕ) (ps : List Proc) → Sub ps (wakeup1 chan ps)
wakeup1-Sub chan ps =
    Sub-pointwise ps (wakeup1 chan ps) (wake_one chan) (wakeup1-slot chan ps) (wake_one-IsLive chan)

Sub-cons :
    (p q : Proc) (ps qs : List Proc)
    → (IsLive q → IsLive p × (q.pid ≡ p.pid))
    → Sub ps qs
    → Sub (p ∷ ps) (q ∷ qs)
Sub-cons p q ps qs head tail zero h = head h
Sub-cons p q ps qs head tail (suc i) h = tail i h

pub start_all-Sub : (ps : List Proc) → Sub ps (start_all ps)
unfolding start_all
start_all-Sub [] = Sub-refl []
start_all-Sub (p ∷ ps) =
    Sub-cons p _ ps (start_all ps) (λ h. (ground arith, ground arith)) (start_all-Sub ps)

kill_one-IsLive : (p : Proc) → IsLive (kill_one p) → IsLive p × ((kill_one p).pid ≡ p.pid)
kill_one-IsLive p h = (ground arith, refl)

pub kill_scan-Sub : (pid : ℕ) (ps : List Proc) → Sub ps (kill_scan pid ps).0
unfolding kill_scan
kill_scan-Sub pid [] = Sub-refl []
kill_scan-Sub pid (p ∷ ps) = elim (Bool-cases (p.pid == pid)) [
  | inl e ↦ rw e (Sub-cons p (kill_one p) ps ps (kill_one-IsLive p) (Sub-refl ps))
  | inr e ↦ rw e (Sub-cons p p ps (kill_scan pid ps).0 (λ h. (h, refl)) (kill_scan-Sub pid ps))
]

clear-IsLive : (p : Proc) → IsLive (clear p) → IsLive p × ((clear p).pid ≡ p.pid)
clear-IsLive p h = cc

pub wait_scan-Sub :
    (cur pid : ℕ) (kids : Bool) (ps : List Proc) → Sub ps (wait_scan cur pid kids ps).0
unfolding wait_scan
wait_scan-Sub cur pid kids [] = Sub-refl []
wait_scan-Sub cur pid kids (p ∷ ps) =
    let on : (more : Bool) → Sub (p ∷ ps) (p ∷ (wait_scan cur pid more ps).0) = (λ more.
      Sub-cons p p ps (wait_scan cur pid more ps).0 (λ h. (h, refl))
        (wait_scan-Sub cur pid more ps)) in
    elim (Bool-cases (p.parent == ptr cur)) [
      | inr e ↦ rw e (on (kids || false))
      | inl e ↦ rw e (elim (Bool-cases (is_state p.state zombie)) [
        | inl z ↦ rw z (Sub-cons p (clear p) ps ps (clear-IsLive p) (Sub-refl ps))
        | inr z ↦ elim (Bool-cases (p.b && pid == 2)) [
          | inl g ↦ rw (z, g) (Sub-refl (p ∷ ps))
          | inr g ↦ rw (z, g) (on (kids || true))
        ]
      ])
    ]

-- One more live process, under the next pid.
pub PidsOk-fresh :
    (k : Kernel) (i : ℕ) (p : Proc)
    → PidsOk k
    → p.pid ≡ k.nextpid
    → PidsOk (put_slot (record k { nextpid = k.nextpid + 1 }) i p)
PidsOk-fresh k i p v e = record { below = below'; unique = unique' }
  where
    find :
        (j : ℕ)
        → ((i ≡ j) × (get_or (set k.ptable i p) j blank ≡ p))
          ⊎ (get_or (set k.ptable i p) j blank ≡ slot k j)
    find j = get_or-set_cases k.ptable i j p blank

    below' :
        (j : ℕ)
        → IsLive (get_or (set k.ptable i p) j blank)
        → (get_or (set k.ptable i p) j blank).pid < k.nextpid + 1
    below' j h = elim (find j) [
      | inl (ij, q) ↦ rw q (omega arith)
      | inr q ↦ rw q (let lt = v.below j (subst IsLive q h) in omega arith)
    ]

    unique' :
        (j m : ℕ)
        → IsLive (get_or (set k.ptable i p) j blank)
        → IsLive (get_or (set k.ptable i p) m blank)
        → (get_or (set k.ptable i p) j blank).pid ≡ (get_or (set k.ptable i p) m blank).pid
        → j ≡ m
    unique' j m hj hm same = elim (find j) [
      | inl (ij, qj) ↦ elim (find m) [
        | inl (im, qm) ↦ sym ij ∙ im
        | inr qm ↦ absurd (
            let lt = v.below m (subst IsLive qm hm) in
            omega (arith, ap (λ x. x.pid) qj, ap (λ x. x.pid) qm))
      ]
      | inr qj ↦ elim (find m) [
        | inl (im, qm) ↦ absurd (
            let lt = v.below j (subst IsLive qj hj) in
            omega (arith, ap (λ x. x.pid) qj, ap (λ x. x.pid) qm))
        | inr qm ↦
            v.unique j m (subst IsLive qj hj) (subst IsLive qm hm)
              (sym (ap (λ x. x.pid) qj) ∙ same ∙ ap (λ x. x.pid) qm)
      ]
    ]
