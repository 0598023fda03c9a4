-- ===== src/Vm.antt =====
-- HW3/xv6-src/vm.c: page tables of two levels in the memory that the allocator of pages hands out.
pub mod Or
pub mod Zeroed
pub mod Tables
pub mod Adds
pub mod Walk
pub mod Stored
pub mod Map
pub mod Range
pub mod Space
pub mod Freed
pub mod Unmap
pub mod Round
pub mod Dealloc
pub mod Ends
pub mod Interface
mod Tests
use cs.Base.{
  ℕ, zero, suc, ◌+◌, ◌-◌, ◌*◌, ◌/◌, ◌%◌, ◌^◌, Bool, true, false, not, ◌&&◌, ◌||◌, Option, none,
  some, ◌==◌, leb, ltb, if◌then◌else◌, update, Outcome, ok, panic, ◌>>=◌,
}
use cs.Kalloc.{Kmem, kalloc, kfree, kernbase, pgsize}
use Prim.Native.Nat.{bit_or}

-- `PDX`, `PTX`, `PGROUNDDOWN`, and `PTE_ADDR`, which is the same number
abbrev pub pdx : ℕ → ℕ
pdx va = va / 4194304 % 1024

abbrev pub ptx : ℕ → ℕ
ptx va = va / 4096 % 1024

abbrev pub pte_addr : ℕ → ℕ
pte_addr x = x - x % 4096

-- `P2V` and `V2P`
abbrev pub p2v : ℕ → ℕ
p2v a = (a + kernbase) % 2 ^ 32

abbrev pub v2p : ℕ → ℕ
v2p a = (a + 2 ^ 32 - kernbase) % 2 ^ 32

-- `memset(p, 0, PGSIZE)`, for `k` more words from `a` on
pub zeroes : ℕ → ℕ → (ℕ → ℕ) → ℕ → ℕ
zeroes zero a mem = mem
zeroes (suc k) a mem = zeroes k (a + 4) (update mem a 0)

abbrev pub set_pte : Kmem → ℕ → ℕ → Kmem
set_pte k a x = record k { mem = update k.mem a x }

-- A new page `t` as the table that the directory entry at `pde` points to.
abbrev pub add_table : ℕ → Kmem → ℕ → Kmem
add_table pde k t = record k {
  mem = update (zeroes 1024 t k.mem) pde (bit_or (bit_or (bit_or (v2p t) 1) 2) 4);
}

-- The address of the page table entry for `va`, 0 for null.
pub walkpgdir : ℕ → ℕ → Bool → Kmem → Kmem × ℕ
walkpgdir d va alloc k =
    let pde = d + 4 * pdx va in
    let new = kalloc k in
    if k.mem pde % 2 == 1
    then (k, p2v (pte_addr (k.mem pde)) + 4 * ptx va)
    else if not alloc || new.1 == 0
    then (k, 0)
    else (add_table pde new.0 new.1, new.1 + 4 * ptx va)

-- The loop of `mappages`, on fuel that suffices if it covers the pages; `false` is -1.
pub map_from : ℕ → ℕ → ℕ → ℕ → ℕ → ℕ → Kmem → Outcome (Kmem × Bool)
map_from zero d a last pa perm k = panic
map_from (suc n) d a last pa perm k =
    let w = walkpgdir d a true k in
    let s = set_pte w.0 w.1 (bit_or (bit_or pa perm) 1) in
    let rest = map_from n d ((a + pgsize) % 2 ^ 32) last ((pa + pgsize) % 2 ^ 32) perm s in
    if w.1 == 0
    then ok (w.0, false)
    else if w.0.mem w.1 % 2 == 1
    then panic
    else if a == last
    then ok (s, true)
    else rest

pub mappages : ℕ → ℕ → ℕ → ℕ → ℕ → Kmem → Outcome (Kmem × Bool)
mappages d va size pa perm k =
    let a = pte_addr va in
    let last = pte_addr ((va + size + 2 ^ 32 - 1) % 2 ^ 32) in
    map_from ((last + 2 ^ 32 - a) % 2 ^ 32 / 4096 + 1) d a last pa perm k

-- One round of the loop of `deallocuvm` at `a`: the memory, and where the next round is.
pub dealloc_step : ℕ → ℕ → ℕ → Kmem → Outcome (Kmem × ℕ)
dealloc_step end d a k =
    let w = (walkpgdir d a false k).1 in
    let pa = pte_addr (k.mem w) in
    let next = (a + pgsize) % 2 ^ 32 in
    if w == 0
    then ok (k, ((pdx a + 1) * 4194304 % 2 ^ 32 + 2 ^ 32 - pgsize + pgsize) % 2 ^ 32)
    else if k.mem w % 2 == 1
    then (if pa == 0 then panic else kfree end (p2v pa) k >>= λ l. ok (set_pte l w 0, next))
    else ok (k, next)

abbrev pub next_round :
    Outcome (Kmem × ℕ) → (Kmem × ℕ → Option (Outcome Kmem)) → Option (Outcome Kmem)
next_round panic loop = some panic
next_round (ok r) loop = loop r

-- The loop of `deallocuvm`, on fuel; `none` where that runs out.
pub dealloc_rounds : ℕ → ℕ → ℕ → ℕ → ℕ → Kmem → Option (Outcome Kmem)
dealloc_rounds zero end d a oldsz k = none
dealloc_rounds (suc n) end d a oldsz k =
    let rest = next_round (dealloc_step end d a k) (λ (l, b). dealloc_rounds n end d b oldsz l) in
    if leb oldsz a then some (ok k) else rest

-- What the loop gives; it does not run out of fuel.
abbrev pub ended : Option (Outcome Kmem) → Outcome Kmem
ended none = panic
ended (some o) = o

-- `PGROUNDUP`
abbrev pub round_up : ℕ → ℕ
round_up a = pte_addr ((a + pgsize - 1) % 2 ^ 32)

-- The memory and the new size
pub deallocuvm : ℕ → ℕ → ℕ → ℕ → Kmem → Outcome (Kmem × ℕ)
deallocuvm end d oldsz newsz k =
    if leb oldsz newsz
    then ok (k, oldsz)
    else (ended (dealloc_rounds (oldsz / 4096 + 2) end d (round_up newsz) oldsz k) >>= λ l.
        ok (l, newsz))
