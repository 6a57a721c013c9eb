-- ===== src/Line/Order.antt =====
-- The indices of the input buffer of console.c: each key and each read keeps their order.
use col.Base.{
  ◌&&◌, not, ltb, ◌∙◌, ◌%◌, get_or, length-set, Bool, ℕ, ◌+◌, zero, suc, Bool-cases, arith, inl,
  inr, length, ◌<◌, ◌==◌, ◌^◌, ◌≡◌, ◌≢◌, ◌≤◌,
}
use col.Line.{
  ends_line, store, newline, ctrl_d, translate, goes_on, word, kill_loop, insert, read_loop,
  input_buf, minus, Input, backspace,
}

-- From `r` on stand the bytes to read, and from `w` on those that can still be edited.
pub record IsInput (i : Input) : Type 0 where
  pub long : length i.buf ≡ input_buf
  pub words : (i.r < 2 ^ 32) × (i.w < 2 ^ 32) × (i.e < 2 ^ 32)
  pub order : minus i.w i.r ≤ minus i.e i.r
  pub room : minus i.e i.r ≤ input_buf

pub backspace-IsInput : (i : Input) → IsInput i → IsInput (backspace i)
unfolding backspace
backspace-IsInput i v = elim (Bool-cases (i.e == i.w)) [
  | inl same ↦ rw same v
  | inr more ↦ rw more (shorter i v (λ q. ground arith))
]
  where
    shorter : (i : Input) → IsInput i → i.e ≢ i.w → IsInput (record i { e = minus i.e 1 })
    shorter i v ne =
        let words = v.words in
        let order = v.order in
        let room = v.room in
        record { long = v.long; words = omega arith; order = omega arith; room = omega arith }

pub kill_loop-IsInput : (fuel : ℕ) (i : Input) → IsInput i → IsInput (kill_loop fuel i)
unfolding kill_loop
kill_loop-IsInput zero i v = v
kill_loop-IsInput (suc fuel) i v = elim (Bool-cases (goes_on i)) [
  | inr stop ↦ rw stop v
  | inl on ↦ rw on (
      kill_loop-IsInput fuel (record i { e = minus i.e 1 })
        (let words = v.words in
          let order = v.order in
          let room = v.room in
          let ne : i.e ≢ i.w = ground arith in
          record { long = v.long; words = omega arith; order = omega arith; room = omega arith }))
]

pub insert-IsInput : (c : ℕ) (i : Input) → IsInput i → IsInput (insert c i).0
unfolding insert
insert-IsInput c i v =
    let words = v.words in
    let order = v.order in
    let room = v.room in
    let long = length-set i.buf (i.e % input_buf) (translate c) ∙ v.long in
    elim (Bool-cases (not (c == 0) && ltb (minus i.e i.r) input_buf)) [
      | inr full ↦ rw full v
      | inl free ↦
          let less : minus i.e i.r < input_buf = ground arith in
          let grown : minus (word (i.e + 1)) i.r ≡ minus i.e i.r + 1 = omega arith in
          let stored : IsInput (store (translate c) i) = record {
            long = long;
            words = omega arith;
            order = omega arith;
            room = omega arith;
          } in
          elim (Bool-cases (ends_line (translate c) (store (translate c) i))) [
            | inr on ↦ rw (free, on) stored
            | inl done ↦
                rw (free, done)
                  (record {
                    long = long;
                    words = omega arith;
                    order = omega arith;
                    room = omega arith;
                  })
          ]
    ]

advance-IsInput : (i : Input) → IsInput i → i.r ≢ i.w → IsInput (record i { r = word (i.r + 1) })
advance-IsInput i v ne =
    let words = v.words in
    let order = v.order in
    let room = v.room in
    record { long = v.long; words = omega arith; order = omega arith; room = omega arith }

pub read_loop-IsInput :
    (killed : Bool) (target n : ℕ) (i : Input) → IsInput i → IsInput (read_loop killed target n i).0
unfolding read_loop
read_loop-IsInput killed target zero i v = v
read_loop-IsInput killed target (suc n) i v = elim (Bool-cases (i.r == i.w)) [
  | inl none_left ↦ rw none_left v
  | inr left ↦
      let on = advance-IsInput i v (λ q. ground arith) in
      let c = get_or i.buf (i.r % input_buf) 0 in
      elim (Bool-cases (c == ctrl_d)) [
        | inl eof ↦ elim (Bool-cases (ltb (suc n) target)) [
          | inl later ↦ rw (left, eof, later) v
          | inr now ↦ rw (left, eof, now) on
        ]
        | inr more ↦ elim (Bool-cases (c == newline)) [
          | inl line ↦ rw (left, more, line) on
          | inr mid ↦
              rw (left, more, mid)
                (read_loop-IsInput killed target n (record i { r = word (i.r + 1) }) on)
        ]
      ]
]
