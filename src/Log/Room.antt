-- ===== src/Log/Room.antt =====
-- Which calls of `log_write` of log.c panic for want of room, by the blocks that are logged: the test
-- `log_fits` of Disk.antt is that of the code.
use col.Base.{
  ltb, if◌then◌else◌, length-set, ◌⊎◌, ap, ==_iff, Bool-cases, List, [], ◌∷◌, Option, arith, false,
  true, inl, inr, length, min, none, refl, some, sym, ℕ, ◌-◌, ◌<◌, ◌==◌, ◌∙◌, ◌↔◌, ◌≡◌, ◌≢◌, ◌≤◌,
}
use col.Disk.{is_logged, lh_n, log_fits}
use col.Log.{Block, Fs, logsize, home, find_entry, add_entry, log_write}
use col.Log.Entries.{Added, add_entry-Added, entry_cases}

-- The calls for the blocks of a list, the last one first, each with some data.
abbrev pub log_all : (data_of : ℕ → Block) → List ℕ → Fs → Option Fs
log_all data_of [] s = some s
log_all data_of (b ∷ bs) s = elim (log_all data_of bs s) [
  | none ↦ none
  | some t ↦ log_write t b (data_of b)
]

-- The header has the blocks of the list, each once.
record Holds (size : ℕ) (t : Fs) (l : List ℕ) : Type 0 where
  n_eq : t.n ≡ lh_n l
  found : (b : ℕ) → is_logged b l ≡ true → (m : ℕ) × (m < t.n) × (home t m ≡ b)
  only : (b m : ℕ) → m < t.n → home t m ≡ b → is_logged b l ≡ true
  ops : 0 < t.outstanding
  long : logsize ≤ length t.block
  size_eq : t.size ≡ size

kept_fields :
    (t : Fs) (b : ℕ) (w : Block)
    → ((add_entry t b w).outstanding ≡ t.outstanding)
      × (length (add_entry t b w).block ≡ length t.block)
      × ((add_entry t b w).size ≡ t.size)
unfolding add_entry
kept_fields t b w = (refl, length-set t.block (find_entry t.n 0 t.block b) b, refl)

Added-n :
    (size : ℕ) (t t' : Fs) (l : List ℕ) (b : ℕ)
    → Holds size t l
    → Added t b t'
    → t'.n ≡ lh_n (b ∷ l)
unfolding lh_n
Added-n size t t' l b h a =
    let n_eq = h.n_eq in
    elim a.cases [
      | inl (same, hit) ↦
          let there : is_logged b l ≡ true = h.only b a.at (let lt = a.at_lt in omega arith) hit in
          rw there (same ∙ n_eq)
      | inr (grown, last, miss) ↦ elim (Bool-cases (is_logged b l)) [
        | inl there ↦ let (m, lt, at) = h.found b there in absurd (miss m lt at)
        | inr new ↦ rw new (omega arith)
      ]
    ]

Added-found :
    (size : ℕ) (t t' : Fs) (l : List ℕ) (b c : ℕ)
    → Holds size t l
    → Added t b t'
    → is_logged c (b ∷ l) ≡ true
    → (m : ℕ) × (m < t'.n) × (home t' m ≡ c)
Added-found size t t' l b c h a e = elim (Bool-cases (b == c)) [
  | inl q ↦ (a.at, a.at_lt, a.at_home ∙ (==_iff b c).0 q)
  | inr q ↦
      let (m, lt, at) = h.found c (rw q at e) in
      let other : b ≢ c = ground arith in
      let ne : m ≢ a.at = λ z. elim a.cases [
        | inl (_, hit) ↦ other (sym hit ∙ ap (home t) (sym z) ∙ at)
        | inr (_, last, _) ↦ absurd (omega arith)
      ] in
      let le : t.n ≤ t'.n = elim a.cases [
        | inl (s, _) ↦ omega arith
        | inr (s, _, _) ↦ omega arith
      ] in
      (m, omega arith, a.others m ne ∙ at)
]

Added-only :
    (size : ℕ) (t t' : Fs) (l : List ℕ) (b c m : ℕ)
    → Holds size t l
    → Added t b t'
    → m < t'.n
    → home t' m ≡ c
    → is_logged c (b ∷ l) ≡ true
Added-only size t t' l b c m h a lt e = elim (entry_cases t t' b m a lt) [
  | inl (_, is) ↦ let q : (b == c) ≡ true = (==_iff b c).1 (sym is ∙ e) in rw q refl
  | inr (_, before, same) ↦
      let there = h.only c m before (sym same ∙ e) in
      elim (Bool-cases (b == c)) [ inl q ↦ rw q refl | inr q ↦ rw q there ]
]

add_entry-Holds :
    (size : ℕ) (t : Fs) (l : List ℕ) (b : ℕ) (w : Block)
    → Holds size t l
    → t.n < logsize
    → Holds size (add_entry t b w) (b ∷ l)
add_entry-Holds size t l b w h lt =
    let long = h.long in
    let ops = h.ops in
    let (o, len, sz) = kept_fields t b w in
    let t' : Fs = add_entry t b w in
    let a = add_entry-Added t b w (omega arith) in
    record {
      n_eq = Added-n size t t' l b h a;
      found = λ c. Added-found size t t' l b c h a;
      only = λ c m. Added-only size t t' l b c m h a;
      ops = omega (arith, o);
      long = omega (arith, len);
      size_eq = sz ∙ h.size_eq;
    }

-- One call, by the room that is left.
log_write-room :
    (size : ℕ) (t : Fs) (l : List ℕ) (b : ℕ) (w : Block)
    → Holds size t l
    → log_write t b w
      ≡ (if ltb (lh_n l) (min logsize (size - 1)) then some (add_entry t b w) else none)
unfolding log_write
log_write-room size t l b w h =
    let n_eq = h.n_eq in let size_eq = h.size_eq in let ops = h.ops in ground arith

log_all-cases :
    (data_of : ℕ → Block) (l : List ℕ) (s : Fs)
    → Holds s.size s []
    → ((log_all data_of l s ≡ none) × (log_fits (min logsize (s.size - 1)) l ≡ false))
      ⊎ ((t : Fs) × (log_all data_of l s ≡ some t)
          × (log_fits (min logsize (s.size - 1)) l ≡ true)
          × Holds s.size t l)
unfolding log_fits
log_all-cases data_of [] s h = inr (s, refl, refl, h)
log_all-cases data_of (b ∷ l) s h =
    let room : ℕ = min logsize (s.size - 1) in
    elim (log_all-cases data_of l s h) [
      | inl (stop, no_room) ↦ inl (rw stop refl, ground arith)
      | inr (t, got, fits, holds) ↦
          let step = log_write-room s.size t l b (data_of b) holds in
          elim (Bool-cases (ltb (lh_n l) room)) [
            | inl lt ↦ inr (
              add_entry t b (data_of b),
              rw (got, step, lt) refl,
              rw (lt, fits) refl,
              add_entry-Holds s.size t l b (data_of b) holds
                  (let n_eq = holds.n_eq in ground arith),
            )
            | inr full ↦ inl (rw (got, step, full) refl, rw full refl)
          ]
    ]

-- From the start of a transaction, inside an operation, calls of `log_write` for the blocks of a list
-- panic on the way exactly when `log_fits` says so, with room for the lesser of LOGSIZE and
-- `log.size - 1` blocks.
pub log_all-log_fits :
    (data_of : ℕ → Block) (l : List ℕ) (s : Fs)
    → s.n ≡ 0
    → 0 < s.outstanding
    → logsize ≤ length s.block
    → (log_all data_of l s ≡ none) ↔ (log_fits (min logsize (s.size - 1)) l ≡ false)
unfolding lh_n
log_all-log_fits data_of l s start ops long =
    let begun : Holds s.size s [] = record {
      n_eq = start;
      found = λ b e. cc;
      only = λ b m lt e. absurd (omega arith);
      ops = ops;
      long = long;
      size_eq = refl;
    } in
    elim (log_all-cases data_of l s begun) [
      | inl (stop, no_room) ↦ ((λ e. no_room), (λ e. stop))
      | inr (t, got, fits, _) ↦ ((λ e. cc), (λ e. cc))
    ]
