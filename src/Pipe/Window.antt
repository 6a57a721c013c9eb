-- ===== src/Pipe/Window.antt =====
-- The bytes in a pipe, oldest first, and the invariant of its counters.
use col.Base.{
  List, [], ap, ap₂, arith, false, get_or, get_or-set_ne, get_or-set_self, length, length-set, refl,
  set, subst, suc, true, zero, ℕ, ◌%◌, ◌++◌, ◌+◌, ◌-◌, ◌<◌, ◌^◌, ◌↔◌, ◌∙◌, ◌∷◌, ◌≡◌, ◌≤◌,
}
use col.Pipe.{pipesize, u32, Pipe, is_full, is_empty, put, front, advance, pipealloc}

pub record IsValid (p : Pipe) : Type 0 where
  pub long : length p.buf ≡ pipesize
  pub read_word : p.nread < 2 ^ 32
  pub write_word : p.nwrite < 2 ^ 32
  pub within : (p.nwrite + 2 ^ 32 - p.nread) % 2 ^ 32 ≤ pipesize

-- How many bytes stand between the counters.
abbrev pub count : Pipe → ℕ
count p = (p.nwrite + 2 ^ 32 - p.nread) % 2 ^ 32

-- The `n` bytes from counter `r` on.
unfoldable pub window : List ℕ → ℕ → ℕ → List ℕ
window buf r zero = []
window buf r (suc n) = get_or buf (r % pipesize) 0 ∷ window buf (u32 (r + 1)) n

abbrev pub contents : Pipe → List ℕ
contents p = window p.buf p.nread (count p)

pub length-window : (buf : List ℕ) (r n : ℕ) → length (window buf r n) ≡ n
unfolding window
length-window buf r zero = refl
length-window buf r (suc n) = ap suc (length-window buf (u32 (r + 1)) n)

-- A byte written just past a window extends it.
window-set :
    (n : ℕ) (buf : List ℕ) (r i x : ℕ)
    → length buf ≡ pipesize
    → n < pipesize
    → i ≡ u32 (r + n) % pipesize
    → window (set buf i x) r (suc n) ≡ window buf r n ++ (x ∷ [])
unfolding window
window-set zero buf r i x long lt e =
    let at : i ≡ r % pipesize = omega arith in
    ap (λ y. y ∷ [])
      (subst (λ j. get_or (set buf i x) j 0 ≡ x) at (get_or-set_self buf i x 0 (omega arith)))
window-set (suc n) buf r i x long lt e =
    ap₂ ◌∷◌ (get_or-set_ne buf i (r % pipesize) x 0 (λ same. absurd (omega arith)))
      (window-set n buf (u32 (r + 1)) i x long (omega arith) (omega arith))

pub is_full_iff : (p : Pipe) → IsValid p → (is_full p ≡ true) ↔ (count p ≡ pipesize)
is_full_iff p v = ((λ h. ground arith), (λ h. ground arith))

pub is_empty_iff : (p : Pipe) → IsValid p → (is_empty p ≡ true) ↔ (count p ≡ 0)
is_empty_iff p v = ((λ h. ground arith), (λ h. ground arith))

-- A byte put into a pipe that is not full goes to the end of the contents, also where a counter
-- wraps, and the pipe stays well-formed.
pub put-contents :
    (x : ℕ) (p : Pipe)
    → IsValid p
    → is_full p ≡ false
    → IsValid (put x p) × (contents (put x p) ≡ contents p ++ (x ∷ []))
unfolding put
put-contents x p v room =
    let more : (u32 (p.nwrite + 1) + 2 ^ 32 - p.nread) % 2 ^ 32 ≡ suc (count p) = ground arith in
    let small : count p < pipesize = ground arith in
    (
      record {
        long = length-set p.buf (p.nwrite % pipesize) x ∙ v.long;
        read_word = v.read_word;
        write_word = omega arith;
        within = omega arith;
      },
      ap (window (set p.buf (p.nwrite % pipesize) x) p.nread) more
          ∙ window-set (count p) p.buf p.nread (p.nwrite % pipesize) x v.long small (omega arith),
    )

-- The front byte of a pipe that is not empty is the oldest one; `advance` drops just this byte and
-- keeps the pipe well-formed.
pub advance-contents :
    (p : Pipe)
    → IsValid p
    → is_empty p ≡ false
    → IsValid (advance p) × (contents p ≡ front p ∷ contents (advance p))
unfolding advance front window
advance-contents p v some_byte =
    let less : count p ≡ suc ((p.nwrite + 2 ^ 32 - u32 (p.nread + 1)) % 2 ^ 32) = ground arith in
    (
      record {
        long = v.long;
        read_word = omega arith;
        write_word = v.write_word;
        within = omega arith;
      },
      ap (window p.buf p.nread) less,
    )

pub pipealloc-IsValid :
    (page : List ℕ)
    → length page ≡ pipesize
    → IsValid (pipealloc page) × (contents (pipealloc page) ≡ [])
unfolding pipealloc window
pipealloc-IsValid page e = (
  record { long = e; read_word = omega arith; write_word = omega arith; within = omega arith },
  refl,
)
