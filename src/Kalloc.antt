-- ===== src/Kalloc.antt =====
-- kalloc.c: the allocator of physical pages, its free list threaded through the pages themselves.
pub mod Pages
mod Tests
use pa.Common.{
  ℕ, zero, suc, ◌+◌, ◌-◌, ◌*◌, ◌/◌, ◌%◌, ◌^◌, Bool, true, false, not, ◌||◌, ◌&&◌, Option, none,
  some, ltb, leb, ◌==◌, if◌then◌else◌, update,
}

-- mmu.h and memlayout.h
abbrev pub page_size : ℕ
page_size = 4096

abbrev pub kern_base : ℕ
kern_base = 0x8000_0000

abbrev pub phys_top : ℕ
phys_top = 0xe000000

-- `V2P(a)`, on uints
abbrev pub v2p : ℕ → ℕ
v2p a = (a + 2 ^ 32 - kern_base) % 2 ^ 32

-- `PGROUNDUP(sz)`: the sum wraps, and the mask clears the low twelve bits.
abbrev pub page_round_up : ℕ → ℕ
page_round_up sz = (sz + page_size - 1) % 2 ^ 32 / page_size * page_size

-- `word` is memory, as the words at their addresses; `freelist` is `kmem.freelist`, 0 for null.
pub record Kmem : Type 0 where
  pub word : ℕ → ℕ
  pub freelist : ℕ

-- `memset(v, 1, PGSIZE)`, as words
abbrev pub junk : (ℕ → ℕ) → ℕ → ℕ → ℕ
junk word v a = if leb v a && ltb a (v + page_size) then 0x0101_0101 else word a

-- `kfree(v)`; `none` is the panic. `end` is the linker's symbol `end`.
pub kfree : (end : ℕ) → Kmem → ℕ → Option Kmem
kfree end k v =
    if not (v % page_size == 0) || ltb v end || leb phys_top (v2p v)
    then none
    else some (record { word = update (junk k.word v) v k.freelist; freelist = v })

-- `kalloc()`: the page, or 0
pub kalloc : Kmem → Kmem × ℕ
kalloc k =
    let r = k.freelist in if not (r == 0) then (record k { freelist = k.word r }, r) else (k, r)

-- the loop of `freerange` from `p` on, with a bound on its rounds
pub free_loop : ℕ → (end : ℕ) → Kmem → (p vend : ℕ) → Option Kmem
unfolding kfree
free_loop zero end k p vend = none
free_loop (suc fuel) end k p vend =
    let next : Option Kmem = elim (kfree end k p) [
      | none ↦ none
      | some k' ↦ free_loop fuel end k' ((p + page_size) % 2 ^ 32) vend
    ] in
    if leb ((p + page_size) % 2 ^ 32) vend then next else some k

pub freerange : ℕ → (end : ℕ) → Kmem → (vstart vend : ℕ) → Option Kmem
unfolding free_loop
freerange fuel end k vstart vend = free_loop fuel end k (page_round_up vstart) vend
