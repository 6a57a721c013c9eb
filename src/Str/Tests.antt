-- ===== src/Str/Tests.antt =====
-- The byte routines at concrete memories.
use col.Base.{if◌then◌else◌, refl, ◌==◌, ◌≡◌}
use col.Str.Memory.{Mem}
use col.Str.Moves.{shifted, memmove-shifted}
use col.Str.{memmove, copy_down, copy_up, memset, stosl}

-- byte `x` of the memory is `x`
abbrev ramp : Mem
ramp x = x

abbrev text : Mem
text x = if x == 103 then 0 else 65

memmove_up : memmove 12 10 5 ramp 16 ≡ 14
unfolding memmove copy_down copy_up
memmove_up = refl

memset_words : memset 8 0x1ff 8 ramp 15 ≡ 255
unfolding memset stosl
memset_words = refl

memmove-shifted_example : memmove 12 10 5 ramp 13 ≡ shifted 12 10 5 ramp 13
memmove-shifted_example = memmove-shifted 12 10 5 ramp 13
