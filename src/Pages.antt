-- ===== src/Pages.antt =====
-- The physical page allocator of xv6-public_2/kalloc.c. The chain of `struct run` from
-- `kmem.freelist` on is a list of addresses; the words that link it stand in the free pages and are
-- left out of `bytes`. `kernel_end` is the linker's symbol `end`.
pub mod Owners
mod Tests
use col.Base.{
  Bool, List, Option, [], if◌then◌else◌, leb, ltb, none, not, some, suc, zero, ℕ, ◌%◌, ◌*◌, ◌+◌,
  ◌-◌, ◌/◌, ◌==◌, ◌^◌, ◌||◌, ◌∷◌,
}
use col.Str.Memory.{Mem}
use col.Str.{memset}

abbrev pub pgsize : ℕ
pgsize = 4096

abbrev pub kernbase : ℕ
kernbase = 0x80000000

abbrev pub phystop : ℕ
phystop = 0xE000000

abbrev pub pgroundup : ℕ → ℕ
pgroundup a = (a + pgsize - 1) / pgsize * pgsize

-- `kmem`, and physical memory as the kernel maps it.
pub record Kmem : Type 0 where
  pub freelist : List ℕ
  pub bytes : Mem

-- `v % PGSIZE || v < end || V2P(v) >= PHYSTOP`
abbrev pub is_bad : (kernel_end v : ℕ) → Bool
is_bad kernel_end v =
    not (v % pgsize == 0) || ltb v kernel_end || leb phystop ((v + 2 ^ 32 - kernbase) % 2 ^ 32)

-- `none` is the panic.
unfoldable pub kfree : (kernel_end v : ℕ) → Kmem → Option Kmem
kfree kernel_end v k =
    if is_bad kernel_end v
    then none
    else some (record { freelist = v ∷ k.freelist; bytes = memset v 1 pgsize k.bytes })

-- With `freelist` for the chain that `kmem.freelist` starts.
abbrev pub hand_out : List ℕ → Kmem → Kmem × Option ℕ
hand_out [] k = (k, none)
hand_out (r ∷ rest) k = (record k { freelist = rest }, some r)

-- The page, or `none` for 0.
unfoldable pub kalloc : Kmem → Kmem × Option ℕ
kalloc k = hand_out k.freelist k

-- The loop of `freerange` from `p` on, for fuel above the number of pages of the range.
unfoldable pub free_from : (fuel kernel_end p vend : ℕ) → Kmem → Option Kmem
free_from zero kernel_end p vend k = none
free_from (suc fuel) kernel_end p vend k =
    if leb (p + pgsize) vend
    then (elim (kfree kernel_end p k) [
      | none ↦ none
      | some k' ↦ free_from fuel kernel_end (p + pgsize) vend k'
    ])
    else some k

pub freerange : (fuel kernel_end vstart vend : ℕ) → Kmem → Option Kmem
freerange fuel kernel_end vstart vend k = free_from fuel kernel_end (pgroundup vstart) vend k
