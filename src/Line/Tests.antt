-- ===== src/Line/Tests.antt =====
-- The line editor at a typed line.
use col.Base.{arith, false, refl, replicate, ◌≡◌}
use col.Line.{Input, goes_on, insert, kill_line, store}
use col.Line.Order.{IsInput}
use col.Line.Bounds.{SameBytes, here, next, inserts, Reach-IsInput, kill_line_stops}

abbrev started : Input
started = record { buf = replicate 128 0; r = 4294967295; w = 4294967295; e = 4294967295 }

started-IsInput : IsInput started
started-IsInput = record {
  long = refl;
  words = (omega arith, omega arith, omega arith);
  order = omega arith;
  room = omega arith;
}

-- `a` is typed
abbrev typed : Input
typed = store b'a' started

typed-IsInput : IsInput typed
typed-IsInput = record {
  long = refl;
  words = (omega arith, omega arith, omega arith);
  order = omega arith;
  room = omega arith;
}

-- `b` is typed where the line with `a` is still to be read
Reach-IsInput_example :
    IsInput (insert b'b' (insert 13 typed).0).0
    × SameBytes (insert 13 typed).0 (insert b'b' (insert 13 typed).0).0
Reach-IsInput_example = Reach-IsInput typed-IsInput (next here (inserts 13)) (inserts b'b')

kill_line_stops_example : goes_on (kill_line typed) ≡ false
kill_line_stops_example = kill_line_stops typed typed-IsInput
