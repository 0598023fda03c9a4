-- ===== src/Kalloc/Calls.antt =====
-- HW2/src/kalloc.c: one call of `kalloc` or of `kfree` that succeeds.
use cs.Base.{
  true, false, ℕ, ◌+◌, ◌-◌, ◌%◌, ◌^◌, ◌≤◌, ◌<◌, ◌≡◌, ◌≢◌, refl, ◌==◌, ltb, leb, arith, update, ok,
}
use cs.Kalloc.{Kmem, pgsize, phystop, kernbase, junk, kfree, kalloc}

pub kalloc_empty : (k : Kmem) → k.freelist ≡ 0 → kalloc k ≡ (k, 0)
unfolding kalloc
kalloc_empty k e = let b : (k.freelist == 0) ≡ true = ground arith in rw b refl

pub kalloc_head :
    (k : Kmem) → k.freelist ≢ 0 → kalloc k ≡ (record k { freelist = k.mem k.freelist }, k.freelist)
unfolding kalloc
kalloc_head k ne = let b : (k.freelist == 0) ≡ false = ground arith in rw b refl

-- What `kfree` makes of the memory where it does not panic
abbrev pub freed : ℕ → Kmem → Kmem
freed v k = record { freelist = v; mem = update (junk 1024 v k.mem) v k.freelist }

-- `kfree` of an aligned page between the kernel's end and the end of memory
pub kfree_ok :
    (end v : ℕ) (k : Kmem)
    → v % pgsize ≡ 0
    → end ≤ v
    → (v + 2 ^ 32 - kernbase) % 2 ^ 32 < phystop
    → kfree end v k ≡ ok (freed v k)
unfolding kfree
kfree_ok end v k hv above below =
    let a : (v % pgsize == 0) ≡ true = ground arith in
    let b : ltb v end ≡ false = ground arith in
    let c : leb phystop ((v + 2 ^ 32 - kernbase) % 2 ^ 32) ≡ false = ground arith in
    rw (a, b, c) refl
