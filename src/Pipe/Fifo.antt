-- ===== src/Pipe/Fifo.antt =====
-- `pipewrite` and `piperead` of pipe.c on the bytes in the pipe.
use col.Base.{
  append_assoc, length-append, ap, ◌+◌, subst, sym, ◌∙◌, ◌≢◌, ◌⊎◌, Bool, Bool-cases, List, [],
  append-nil, arith, drop, false, inl, inr, length, not, refl, suc, take, take-nil, true, zero, ℕ,
  ◌++◌, ◌-◌, ◌<◌, ◌||◌, ◌∷◌, ◌≡◌, ◌≤◌,
}
use col.Pipe.{
  Side, reader, writer, wake, pipesize, Pipe, is_full, is_empty, put, front, advance, Written,
  wrote, broken, waits, pipewrite, copy_out, Got, bytes, interrupted, sleeps, piperead,
}
use col.Pipe.Window.{
  window, IsValid, count, contents, length-window, is_full_iff, is_empty_iff, put-contents,
  advance-contents,
}

wake-IsValid : (s : Side) (p : Pipe) → IsValid p → IsValid (wake s p)
wake-IsValid s p v = record {
  long = v.long;
  read_word = v.read_word;
  write_word = v.write_word;
  within = v.within;
}

-- How the stretch ended, by whether all bytes found room.
abbrev pub Ended : Bool → Pipe → ℕ → List ℕ → Written → Type 0
Ended killed p room xs wrote = length xs ≤ room
Ended killed p room xs broken = (room < length xs) × ((not p.readopen || killed) ≡ true)
Ended killed p room xs (waits ys) =
    (room < length xs) × (ys ≡ drop room xs) × ((not p.readopen || killed) ≡ false)

-- What a stretch of `pipewrite` has done to a pipe with room for `room` bytes. A stretch that does
-- not fail has woken the reader.
pub record Wrote (killed : Bool) (p : Pipe) (room : ℕ) (xs : List ℕ) (r : Pipe × Written)
    : Type 0 where
  pub valid : IsValid r.0
  pub added : contents r.0 ≡ contents p ++ take room xs
  pub ended : Ended killed p room xs r.1
  pub woke : (r.1 ≡ broken) ⊎ ((earlier : List Side) × (r.0.woken ≡ reader ∷ earlier))

Ended-cons :
    (killed : Bool) (p q : Pipe) (room x : ℕ) (xs : List ℕ) (w : Written)
    → q.readopen ≡ p.readopen
    → Ended killed q room xs w
    → Ended killed p (suc room) (x ∷ xs) w
Ended-cons killed p q room x xs wrote e h = omega arith
Ended-cons killed p q room x xs broken e h =
    (omega arith, subst (λ o. (not o || killed) ≡ true) e h.1)
Ended-cons killed p q room x xs (waits ys) e h =
    (omega arith, h.1, subst (λ o. (not o || killed) ≡ false) e h.2)

readopen-put : (x : ℕ) (p : Pipe) → (put x p).readopen ≡ p.readopen
unfolding put
readopen-put x p = refl

Wrote-cons :
    (killed : Bool) (p : Pipe) (room x : ℕ) (xs : List ℕ) (r : Pipe × Written)
    → contents (put x p) ≡ contents p ++ (x ∷ [])
    → Wrote killed (put x p) room xs r
    → Wrote killed p (suc room) (x ∷ xs) r
Wrote-cons killed p room x xs r c h = record {
  valid = h.valid;
  added =
      h.added ∙ ap (λ ys. ys ++ take room xs) c ∙ append_assoc (contents p) (x ∷ []) (take room xs);
  ended = Ended-cons killed p (put x p) room x xs r.1 (readopen-put x p) h.ended;
  woke = h.woke;
}

-- On a well-formed pipe `pipewrite` appends bytes in order as long as there is room. It ends with all
-- bytes written where they fit; where they do not, it fails if the read end is closed or the process
-- is killed, and sleeps with the bytes that are left otherwise. The reader is woken unless the write
-- fails, and the pipe stays well-formed.
pub pipewrite-Wrote :
    (killed : Bool) (xs : List ℕ) (p : Pipe)
    → IsValid p
    → Wrote killed p (pipesize - count p) xs (pipewrite killed p xs)
unfolding pipewrite
pipewrite-Wrote killed [] p v = record {
  valid = wake-IsValid reader p v;
  added = rw (take-nil, append-nil);
  ended = omega arith;
  woke = inr (p.woken, refl);
}
pipewrite-Wrote killed (x ∷ xs) p v = elim (Bool-cases (is_full p)) [
  | inl full ↦
      let none_left : pipesize - count p ≡ 0 = omega (arith, (is_full_iff p v).0 full) in
      subst (λ room. Wrote killed p room (x ∷ xs) (pipewrite killed p (x ∷ xs))) (sym none_left)
        (elim (Bool-cases (not p.readopen || killed)) [
          | inl dead ↦
              rw (full, dead)
                (record {
                  valid = v;
                  added = sym (append-nil (contents p));
                  ended = (omega arith, dead);
                  woke = inl refl;
                })
          | inr live ↦
              rw (full, live)
                (record {
                  valid = wake-IsValid reader p v;
                  added = sym (append-nil (contents p));
                  ended = (omega arith, refl, live);
                  woke = inr (p.woken, refl);
                })
        ])
  | inr room ↦
      let (v', c) = put-contents x p v room in
      let one_more : count (put x p) ≡ count p + 1 = omega (
        arith,
        length-window (put x p).buf (put x p).nread (count (put x p)),
        length-window p.buf p.nread (count p),
        ap length c,
        length-append (contents p) (x ∷ []),
      ) in
      let left : pipesize - count p ≡ suc (pipesize - count (put x p)) = omega (arith, v'.within) in
      subst (λ m. Wrote killed p m (x ∷ xs) (pipewrite killed p (x ∷ xs))) (sym left)
        (rw room (
          Wrote-cons killed p (pipesize - count (put x p)) x xs (pipewrite killed (put x p) xs) c
            (pipewrite-Wrote killed xs (put x p) v')))
]

empty_contents : (p : Pipe) → IsValid p → is_empty p ≡ true → contents p ≡ []
unfolding window
empty_contents p v e = ap (window p.buf p.nread) ((is_empty_iff p v).0 e)

nonempty_contents : (p : Pipe) → IsValid p → is_empty p ≡ false → contents p ≢ []
nonempty_contents p v e q =
    ground (arith, ap length q, length-window p.buf p.nread (count p), (is_empty_iff p v).1)

-- `copy_out` takes the oldest bytes in order, as many as asked for or as there are.
pub copy_out-contents :
    (n : ℕ) (p : Pipe)
    → IsValid p
    → let (p', xs) = copy_out n p in
      IsValid p' × (xs ≡ take n (contents p)) × (contents p ≡ xs ++ contents p')
unfolding copy_out
copy_out-contents zero p v = (v, refl, refl)
copy_out-contents (suc n) p v = elim (Bool-cases (is_empty p)) [
  | inl e ↦ let nothing = empty_contents p v e in rw e (v, sym (ap (take (suc n)) nothing), refl)
  | inr ne ↦
      let (v', c) = advance-contents p v ne in
      let (w, taken, rest) = copy_out-contents n (advance p) v' in
      rw ne (
        w,
        ap (λ ys. front p ∷ ys) taken ∙ sym (ap (take (suc n)) c),
        c ∙ ap (λ ys. front p ∷ ys) rest,
      )
]

-- What `piperead` gives back, by what the pipe holds.
abbrev pub GotOf : Bool → ℕ → Pipe → Pipe → Got → Type 0
GotOf killed n p p' (bytes xs) =
    (xs ≡ take n (contents p))
    × (contents p ≡ xs ++ contents p')
    × ((contents p ≢ []) ⊎ (p.writeopen ≡ false))
GotOf killed n p p' interrupted =
    (p' ≡ p) × (contents p ≡ []) × (p.writeopen ≡ true) × (killed ≡ true)
GotOf killed n p p' sleeps = (p' ≡ p) × (contents p ≡ []) × (p.writeopen ≡ true) × (killed ≡ false)

-- On a well-formed pipe `piperead` returns the oldest bytes, at most `n`, and removes just these, where
-- the pipe has bytes or no writer is left. Otherwise it leaves the pipe as it is, and fails if the
-- process is killed and sleeps if not. The pipe stays well-formed.
pub piperead-GotOf :
    (killed : Bool) (n : ℕ) (p : Pipe)
    → IsValid p
    → let (p', got) = piperead killed n p in IsValid p' × GotOf killed n p p' got
unfolding piperead
piperead-GotOf killed n p v =
    let (w, taken, rest) = copy_out-contents n p v in
    let by : (r : Pipe × Got)
        → piperead killed n p ≡ r
        → IsValid r.0 × GotOf killed n p r.0 r.1
        → IsValid (piperead killed n p).0
          × GotOf killed n p (piperead killed n p).0 (piperead killed n p).1 =
      (λ r e h. subst (λ r. IsValid r.0 × GotOf killed n p r.0 r.1) (sym e) h) in
    let done : Pipe × Got = (wake writer (copy_out n p).0, bytes (copy_out n p).1) in
    let valid = wake-IsValid writer (copy_out n p).0 w in
    elim (Bool-cases (is_empty p)) [
      | inr ne ↦ by done (ground arith) (valid, (taken, rest, inl (nonempty_contents p v ne)))
      | inl e ↦ elim (Bool-cases p.writeopen) [
        | inr closed ↦ by done (ground arith) (valid, (taken, rest, inr closed))
        | inl left_open ↦
            let nothing = empty_contents p v e in
            elim (Bool-cases killed) [
              | inl dead ↦ by (p, interrupted) (ground arith) (v, (refl, nothing, left_open, dead))
              | inr live ↦ by (p, sleeps) (ground arith) (v, (refl, nothing, left_open, live))
            ]
      ]
    ]
