-- ===== src/Traps.antt =====
-- HW2/src/trap.c and HW2/src/syscall.c: the counters of traps and system calls of a process, what the
-- countTraps system call reports of them, and the dispatch of system calls.
pub mod Totals
mod Tests
use cs.Base.{
  ℕ, zero, suc, ◌+◌, ◌-◌, ◌%◌, ◌^◌, Bool, ◌&&◌, List, [], ◌∷◌, ◌==◌, ltb, leb, if◌then◌else◌,
  update,
}

-- The index of a trap number, which as an `int` is negative from 2 ^ 31 on
unfoldable pub trapnos : ℕ → ℕ
trapnos trapno =
    if leb trapno 19
    then trapno
    else if leb 32 trapno && ltb trapno 64
    then 20
    else if trapno == 64
    then 21
    else 22

-- `++counts[i]`, on words of 32 bits
abbrev pub count_up : (ℕ → ℕ) → ℕ → ℕ → ℕ
count_up counts i = update counts i ((counts i + 1) % 2 ^ 32)

-- The loops that print and add up, for `n` more counters from `i` on: the lines, each an index and a
-- count, and the total.
pub count_from : ℕ → ℕ → (ℕ → ℕ) → ℕ → List (ℕ × ℕ) × ℕ
count_from zero i counts c = ([], c)
count_from (suc n) i counts c =
    let s = counts i in
    let zero_here = s == 0 in
    let rest = count_from n (i + 1) counts (if zero_here then c else (c + s) % 2 ^ 32) in
    if zero_here then rest else ((i, s) ∷ rest.0, rest.1)

-- A process's counters and the result register `eax`.
pub record Task : Type 0 where
  pub trapcounts : ℕ → ℕ
  pub syscounts : ℕ → ℕ
  pub eax : ℕ

-- What is printed, and the total: `syscounts` has 23 elements, of which the first is not used.
pub count_syscalls : Task → List (ℕ × ℕ) × ℕ
count_syscalls p = count_from 22 1 p.syscounts 0

-- What is printed of the system calls and of the traps, and the returned total; `trapcounts` has 23
-- elements.
pub sys_count_traps : Task → List (ℕ × ℕ) × List (ℕ × ℕ) × ℕ
sys_count_traps p =
    let traps = count_from 22 0 p.trapcounts 0 in ((count_syscalls p).0, traps.0, traps.1)

-- The first statements of `trap`, in a process
pub count_trap : ℕ → Task → Task
count_trap trapno p = record p { trapcounts = count_up p.trapcounts (trapnos trapno) }

-- `run num` is the handler of system call `num`: the process after it, and the result. The number is
-- an `int`, negative from 2 ^ 31 on.
pub syscall : (ℕ → Task → Task × ℕ) → Task → Task
syscall run p =
    let num = p.eax in
    let called = run num (record p { syscounts = count_up p.syscounts num }) in
    if ltb 0 num && ltb num 23
    then record (called.0) { eax = called.1 }
    else record p { eax = 2 ^ 32 - 1 }
