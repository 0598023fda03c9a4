-- ===== src/Kalloc.antt =====
-- HW2/src/kalloc.c: the allocator of physical pages, a free list threaded through the free pages.
pub mod Chain
pub mod Owners
pub mod Calls
mod Tests
use cs.Base.{
  ℕ, zero, suc, ◌+◌, ◌-◌, ◌*◌, ◌/◌, ◌%◌, ◌^◌, Bool, true, false, not, ◌||◌, ◌==◌, ltb, leb,
  if◌then◌else◌, update, Outcome, ok, panic, ◌>>=◌,
}

abbrev pub pgsize : ℕ
pgsize = 4096

abbrev pub kernbase : ℕ
kernbase = 2 ^ 31

-- 0xE000000
abbrev pub phystop : ℕ
phystop = 234881024

-- `kmem.freelist` (0 for null), and the words of memory at the addresses that 4 divides.
pub record Kmem : Type 0 where
  pub freelist : ℕ
  pub mem : ℕ → ℕ

-- `memset(v, 1, PGSIZE)`, for `k` more words from `a` on
pub junk : ℕ → ℕ → (ℕ → ℕ) → ℕ → ℕ
junk zero a mem = mem
junk (suc k) a mem = junk k (a + 4) (update mem a 16843009)

-- `end` is the first address after the kernel. Addresses are below 2 ^ 32, and `V2P` subtracts.
pub kfree : ℕ → ℕ → Kmem → Outcome Kmem
kfree end v k =
    if not (v % pgsize == 0) || (ltb v end || leb phystop ((v + 2 ^ 32 - kernbase) % 2 ^ 32))
    then panic
    else ok (record { freelist = v; mem = update (junk 1024 v k.mem) v k.freelist })

-- The allocator and the page, 0 for none.
pub kalloc : Kmem → Kmem × ℕ
kalloc k =
    if k.freelist == 0 then (k, 0) else (record k { freelist = k.mem k.freelist }, k.freelist)

-- The loop of `freerange`, for `n` more pages from `p` on
pub freerange_from : ℕ → ℕ → ℕ → Kmem → Outcome Kmem
freerange_from end zero p k = ok k
freerange_from end (suc n) p k = kfree end p k >>= freerange_from end n (p + pgsize)

-- `PGROUNDUP` of the start, and as many rounds as there are whole pages from there to `vend`.
pub freerange : ℕ → ℕ → ℕ → Kmem → Outcome Kmem
freerange end vstart vend k =
    let p = (vstart + pgsize - 1) / pgsize * pgsize in freerange_from end ((vend - p) / pgsize) p k
