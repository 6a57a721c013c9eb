-- ===== src/Pipe/Tests.antt =====
-- The pipe's theorems at a small pipe.
use col.Base.{List, [], arith, false, refl, replicate, ℕ, ◌-◌, ◌∷◌}
use col.Pipe.{Pipe, pipesize, pipealloc, pipewrite, piperead, put}
use col.Pipe.Window.{IsValid, count, put-contents}
use col.Pipe.Fifo.{Wrote, GotOf, pipewrite-Wrote, piperead-GotOf}

abbrev page : List ℕ
page = replicate 512 0

-- a pipe whose counters are about to wrap, with nothing in it
abbrev late : Pipe
late = record (pipealloc page) { nread = 4294967295; nwrite = 4294967295 }

late-IsValid : IsValid late
unfolding pipealloc
late-IsValid = record {
  long = refl;
  read_word = omega arith;
  write_word = omega arith;
  within = omega arith;
}

pipewrite-Wrote_example :
    Wrote false late (pipesize - count late) (7 ∷ 8 ∷ []) (pipewrite false late (7 ∷ 8 ∷ []))
pipewrite-Wrote_example = pipewrite-Wrote false (7 ∷ 8 ∷ []) late late-IsValid

late_one-IsValid : IsValid (put 7 late)
late_one-IsValid = (put-contents 7 late late-IsValid refl).0

piperead-GotOf_example :
    let (p', got) = piperead false 5 (put 7 late) in IsValid p' × GotOf false 5 (put 7 late) p' got
piperead-GotOf_example = piperead-GotOf false 5 (put 7 late) late_one-IsValid
