-- ===== src/Spin.antt =====
-- HW2/src/spinlock.c: interrupts of a processor, and spin locks among processors.
pub mod Nesting
pub mod Locks
pub mod Exclusion
mod Tests
use cs.Base.{
  ℕ, ◌+◌, ◌-◌, Bool, true, false, ◌&&◌, Option, none, some, ◌==◌, if◌then◌else◌, update, Outcome,
  ok, panic, ◌>>=◌,
}

-- Of `struct cpu` the depth of `pushcli` and `intena`, and the flag `FL_IF` of the processor.
pub record Cpu : Type 0 where
  pub ncli : ℕ
  pub intena : Bool
  pub flag : Bool

-- `struct spinlock`; `none` is the pointer 0 for `cpu`.
pub record Spinlock : Type 0 where
  pub locked : Bool
  pub cpu : Option ℕ

pub record Machine : Type 0 where
  pub cpus : ℕ → Cpu
  pub locks : ℕ → Spinlock

abbrev pub initlock : Spinlock
initlock = record { locked = false; cpu = none }

unfoldable pub pushcli : Cpu → Cpu
pushcli p = record {
  ncli = p.ncli + 1;
  intena = if p.ncli == 0 then p.flag else p.intena;
  flag = false;
}

pub popcli : Cpu → Outcome Cpu
popcli p =
    if p.flag
    then panic
    else if p.ncli == 0
    then panic
    else ok (record p {
      ncli = p.ncli - 1;
      flag = if (p.ncli - 1 == 0) && p.intena then true else p.flag;
    })

abbrev pub is_mine : ℕ → Option ℕ → Bool
is_mine c none = false
is_mine c (some d) = c == d

-- `holding` on processor `c`, whose state is `p`.
pub holding : ℕ → Spinlock → Cpu → Outcome (Cpu × Bool)
holding c lk p = let r = lk.locked && is_mine c lk.cpu in popcli (pushcli p) >>= λ q. ok (q, r)

abbrev pub set_cpu : Machine → ℕ → Cpu → Machine
set_cpu m c p = record m { cpus = update m.cpus c p }

abbrev pub set_lock : Machine → ℕ → Spinlock → Machine
set_lock m k lk = record m { locks = update m.locks k lk }

abbrev pub unless_held : Machine → ℕ → Cpu × Bool → Outcome Machine
unless_held m c (p, true) = panic
unless_held m c (p, false) = ok (set_cpu m c p)

-- `acquire` of lock `k` on processor `c`, up to the loop.
pub acquire_enter : ℕ → ℕ → Machine → Outcome Machine
acquire_enter c k m = holding c (m.locks k) (pushcli (m.cpus c)) >>= unless_held m c

-- One `xchg`: whether the loop ends.
pub acquire_xchg : ℕ → Machine → Machine × Bool
acquire_xchg k m = (
  set_lock m k (record (m.locks k) { locked = true }),
  if (m.locks k).locked then false else true,
)

-- The rest of `acquire`.
pub acquire_own : ℕ → ℕ → Machine → Machine
acquire_own c k m = set_lock m k (record (m.locks k) { cpu = some c })

abbrev pub if_held : Machine → ℕ → ℕ → Cpu × Bool → Outcome Machine
if_held m c k (p, true) = ok (set_lock (set_cpu m c p) k (record (m.locks k) { cpu = none }))
if_held m c k (p, false) = panic

-- `release` up to the write of `locked`.
pub release_clear : ℕ → ℕ → Machine → Outcome Machine
release_clear c k m = holding c (m.locks k) (m.cpus c) >>= if_held m c k

-- The rest of `release`.
pub release_free : ℕ → ℕ → Machine → Outcome Machine
release_free c k m = popcli (m.cpus c) >>= λ p.
    ok (set_lock (set_cpu m c p) k (record (m.locks k) { locked = false }))
