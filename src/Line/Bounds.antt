-- ===== src/Line/Bounds.antt =====
-- The indices of the input buffer of console.c, through keys and reads.
use col.Base.{
  ◌&&◌, not, ltb, ◌∙◌, ◌%◌, get_or, Bool, ℕ, ◌+◌, false, zero, suc, Bool-cases, arith, inl, inr,
  ◌<◌, ◌==◌, ◌^◌, ◌≡◌, ◌≢◌, ◌≤◌, ◌⊎◌, ap, refl, set, get_or-set_ne,
}
use col.Line.Order.{
  IsInput, backspace-IsInput, kill_loop-IsInput, insert-IsInput, read_loop-IsInput,
}
use col.Line.{
  translate, ends_line, store, goes_on, kill_line, word, kill_loop, insert, read_loop, input_buf,
  minus, Input, backspace,
}

-- A key, or a stretch of a read.
pub data Step (i : Input) : Input → Type 0 where
  backspaces : Step i (backspace i)
  kills : Step i (kill_line i)
  inserts : (c : ℕ) → Step i (insert c i).0
  reads : (killed : Bool) (target n : ℕ) → Step i (read_loop killed target n i).0

pub data Reach (i : Input) : Input → Type 0 where
  here : Reach i i
  next : {j k : Input} → Reach i j → Step j k → Reach i k

Reach-kept : {i j : Input} → IsInput i → Reach i j → IsInput j
unfolding kill_line
Reach-kept v here = v
Reach-kept v (next {j} r backspaces) = backspace-IsInput j (Reach-kept v r)
Reach-kept v (next {j} r kills) = kill_loop-IsInput (minus j.e j.w) j (Reach-kept v r)
Reach-kept v (next {j} r (inserts c)) = insert-IsInput c j (Reach-kept v r)
Reach-kept v (next {j} r (reads killed target n)) =
    read_loop-IsInput killed target n j (Reach-kept v r)

-- The byte that stands `k` places behind the next one to read.
abbrev pub typed_byte : Input → (r k : ℕ) → ℕ
typed_byte i r k = get_or i.buf (word (r + k) % input_buf) 0

-- Each byte from `r` up to `e` in `i` is at its place in `j` as well.
abbrev pub SameBytes : Input → Input → Type 0
SameBytes i j = (k : ℕ) → k < minus i.e i.r → typed_byte j i.r k ≡ typed_byte i i.r k

-- What one step does not touch.
backspace-buf : (i : Input) → (backspace i).buf ≡ i.buf
unfolding backspace
backspace-buf i = ground arith

kill_loop-buf : (fuel : ℕ) (i : Input) → (kill_loop fuel i).buf ≡ i.buf
unfolding kill_loop
kill_loop-buf zero i = refl
kill_loop-buf (suc fuel) i = elim (Bool-cases (goes_on i)) [
  | inr stop ↦ rw stop refl
  | inl on ↦ rw on (kill_loop-buf fuel (record i { e = minus i.e 1 }))
]

read_loop-buf :
    (killed : Bool) (target n : ℕ) (i : Input) → (read_loop killed target n i).0.buf ≡ i.buf
unfolding read_loop
read_loop-buf killed target zero i = refl
read_loop-buf killed target (suc n) i =
    ground (arith, read_loop-buf killed target n (record i { r = word (i.r + 1) }))

insert-buf :
    (c : ℕ) (i : Input)
    → ((insert c i).0.buf ≡ i.buf)
      ⊎ ((minus i.e i.r < input_buf)
          × ((insert c i).0.buf ≡ set i.buf (i.e % input_buf) (translate c)))
unfolding insert
insert-buf c i = elim (Bool-cases (not (c == 0) && ltb (minus i.e i.r) input_buf)) [
  | inr full ↦ rw full (inl refl)
  | inl free ↦
      let less : minus i.e i.r < input_buf = ground arith in
      elim (Bool-cases (ends_line (translate c) (store (translate c) i))) [
        | inr on ↦ rw (free, on) (inr (less, refl))
        | inl done ↦ rw (free, done) (inr (less, refl))
      ]
]

-- The place of a new byte is not that of one that was typed before.
apart_lem :
    (r e k : ℕ)
    → r < 2 ^ 32
    → e < 2 ^ 32
    → minus e r < input_buf
    → k < minus e r
    → e % input_buf ≢ word (r + k) % input_buf
apart_lem r e k lr le less lt q = omega arith

same_buf : (i j : Input) → j.buf ≡ i.buf → SameBytes i j
same_buf i j q k lt = ap (λ b. get_or b (word (i.r + k) % input_buf) 0) q

insert-SameBytes : (c : ℕ) (i : Input) → IsInput i → SameBytes i (insert c i).0
insert-SameBytes c i v k lt = elim (insert-buf c i) [
  | inl q ↦ same_buf i (insert c i).0 q k lt
  | inr (less, q) ↦
      let (lr, _, le) = v.words in
      ap (λ b. get_or b (word (i.r + k) % input_buf) 0) q
      ∙ get_or-set_ne i.buf (i.e % input_buf) (word (i.r + k) % input_buf) (translate c) 0
          (apart_lem i.r i.e k lr le less lt)
]

Step-SameBytes : (i j : Input) → IsInput i → Step i j → SameBytes i j
unfolding kill_line
Step-SameBytes i j v backspaces = same_buf i j (backspace-buf i)
Step-SameBytes i j v kills = same_buf i j (kill_loop-buf (minus i.e i.w) i)
Step-SameBytes i j v (inserts c) = insert-SameBytes c i v
Step-SameBytes i j v (reads killed target n) = same_buf i j (read_loop-buf killed target n i)

-- However keys and reads follow each other, and whichever comes next: the indices stay in the order
-- read, write, edit, at most INPUT_BUF bytes apart, and the next key or read overwrites no byte that is
-- still to be read or edited. Each byte from the read index up to the edit index stays at its place.
pub Reach-IsInput : {i j l : Input} → IsInput i → Reach i j → Step j l → IsInput l × SameBytes j l
Reach-IsInput {j = j} {l = l} v r step =
    (Reach-kept v (next r step), Step-SameBytes j l (Reach-kept v r) step)

kill_loop_stops :
    (fuel : ℕ) (i : Input)
    → i.e < 2 ^ 32
    → i.w < 2 ^ 32
    → minus i.e i.w ≤ fuel
    → goes_on (kill_loop fuel i) ≡ false
unfolding kill_loop
kill_loop_stops zero i e w h = let same : i.e ≡ i.w = omega arith in ground arith
kill_loop_stops (suc fuel) i e w h = elim (Bool-cases (goes_on i)) [
  | inr stop ↦ rw stop stop
  | inl on ↦
      let ne : i.e ≢ i.w = ground arith in
      rw on (kill_loop_stops fuel (record i { e = minus i.e 1 }) (omega arith) w (omega arith))
]

-- Ctrl-U stops only where the editable part is empty or ends behind a newline: the rounds that it is
-- given are enough.
pub kill_line_stops : (i : Input) → IsInput i → goes_on (kill_line i) ≡ false
unfolding kill_line
kill_line_stops i v =
    let words = v.words in kill_loop_stops (minus i.e i.w) i words.2 words.1 (omega arith)
