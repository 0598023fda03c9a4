-- ===== src/Spin/Exclusion.antt =====
-- At most one processor is between the `xchg` of `acquire` that gets a lock and the end of `release`.
use cs.Base.{
  ◌+◌, ℕ, ◌≡◌, ◌↔◌, inl, inr, refl, ap, sym, ◌∙◌, Bool, true, false, none, some, arith, ◌==◌, ◌&&◌,
  ◌>>=◌, Outcome, panic, Ensures, if◌then◌else◌, Bool-cases, update, update_cases, ok, Ensures_ok,
}
use cs.Spin.{
  popcli, is_mine, if_held, Cpu, Spinlock, Machine, initlock, holding, pushcli, acquire_enter,
  acquire_xchg, acquire_own, release_clear, release_free,
}
use cs.Spin.Locks.{enter-locks, clear-locks, free-locks, xchg-locks}

-- Who has a lock: nobody, a processor whose `xchg` succeeded, its owner after `acquire`, or a
-- processor in the middle of `release`.
pub data Holder : Type 0 where
  nobody : Holder
  taken owned leaving : ℕ → Holder

pub record World : Type 0 where
  pub machine : Machine
  pub holder : ℕ → Holder

abbrev pub with_holder : World → Machine → ℕ → Holder → World
with_holder w m k h = record { machine = m; holder = update w.holder k h }

-- Processors go on one by one; `other_cpu` is what else they do, not to locks.
pub data Step : World → World → Type 0 where
  enters :
      {w : World} (c k : ℕ) (m : Machine)
      → acquire_enter c k w.machine ≡ ok m
      → Step w (record w { machine = m })
  spins :
      {w : World} (k : ℕ) (m : Machine)
      → acquire_xchg k w.machine ≡ (m, false)
      → Step w (record w { machine = m })
  takes :
      {w : World} (c k : ℕ) (m : Machine)
      → acquire_xchg k w.machine ≡ (m, true)
      → Step w (with_holder w m k (taken c))
  owns :
      {w : World} (c k : ℕ)
      → w.holder k ≡ taken c
      → Step w (with_holder w (acquire_own c k w.machine) k (owned c))
  clears :
      {w : World} (c k : ℕ) (m : Machine)
      → release_clear c k w.machine ≡ ok m
      → Step w (with_holder w m k (leaving c))
  frees :
      {w : World} (c k : ℕ) (m : Machine)
      → w.holder k ≡ leaving c
      → release_free c k w.machine ≡ ok m
      → Step w (with_holder w m k nobody)
  other_cpu :
      {w : World} (cpus : ℕ → Cpu)
      → Step w (record w { machine = record w.machine { cpus = cpus } })

-- From locks after `initlock`.
pub data Reach : World → Type 0 where
  begins :
      (cpus : ℕ → Cpu)
      → Reach
          (record { machine = record { cpus = cpus; locks = λ _. initlock }; holder = λ _. nobody })
  then_step : {w u : World} → Reach w → Step w u → Reach u

-- The lock that the holder implies.
abbrev pub lock_of : Holder → Spinlock
lock_of nobody = record { locked = false; cpu = none }
lock_of (taken c) = record { locked = true; cpu = none }
lock_of (owned c) = record { locked = true; cpu = some c }
lock_of (leaving c) = record { locked = true; cpu = none }

abbrev pub IsExclusive : World → Type 0
IsExclusive w = (k : ℕ) → w.machine.locks k ≡ lock_of (w.holder k)

-- One lock and its holder change.
set_lock-IsExclusive :
    (w : World) (m : Machine) (k : ℕ) (h : Holder)
    → IsExclusive w
    → m.locks ≡ update w.machine.locks k (lock_of h)
    → IsExclusive (with_holder w m k h)
set_lock-IsExclusive w m k h x e j = ap (λ f. f j) e ∙ both w.machine.locks w.holder x k h j
  where
    both :
        (locks : ℕ → Spinlock) (holder : ℕ → Holder)
        → ((k : ℕ) → locks k ≡ lock_of (holder k))
        → (k : ℕ) (h : Holder) (j : ℕ)
        → update locks k (lock_of h) j ≡ lock_of (update holder k h j)
    both locks holder x k h j = elim (Bool-cases (k == j)) [
      | inl e ↦ rw e refl
      | inr e ↦ rw e (x j)
    ]

-- The holder that a lock implies is determined by it where it is free.
lock_of-free : (h : Holder) → (lock_of h).locked ≡ false → h ≡ nobody
lock_of-free nobody e = refl
lock_of-free (taken c) e = cc
lock_of-free (owned c) e = cc
lock_of-free (leaving c) e = cc

update_same : (f : ℕ → Spinlock) (k : ℕ) (v : Spinlock) → v ≡ f k → (j : ℕ) → update f k v j ≡ f j
update_same f k v e = λ j. update_cases (λ x. x ≡ f j) f k v j (λ same. e ∙ ap f same) (λ _. refl)

-- A lock record after a write, from the holder before and after.
written :
    (w : World) (k : ℕ) (v : Spinlock) (h : Holder) (locks : ℕ → Spinlock)
    → locks ≡ update w.machine.locks k v
    → v ≡ lock_of h
    → locks ≡ update w.machine.locks k (lock_of h)
written w k v h locks e same = e ∙ ap (update w.machine.locks k) same

taken-nobody :
    (w : World) (k : ℕ)
    → IsExclusive w
    → true ≡ (if (w.machine.locks k).locked then false else true)
    → w.holder k ≡ nobody
taken-nobody w k x e =
    let free : (w.machine.locks k).locked ≡ false = ground arith in
    lock_of-free (w.holder k) (ap (λ (l : Spinlock). l.locked) (sym (x k)) ∙ free)

Step-IsExclusive : {w u : World} → Step w u → IsExclusive w → IsExclusive u
unfolding acquire_enter acquire_own
Step-IsExclusive (Step.enters {w} c k m e) x =
    let same =
      Ensures_ok (λ (u : Machine). u.locks ≡ w.machine.locks) (acquire_enter c k w.machine) m
        (enter-locks w.machine c (holding c (w.machine.locks k) (pushcli (w.machine.cpus c)))) e in
    λ j. ap (λ f. f j) same ∙ x j
Step-IsExclusive (Step.spins {w} k m e) x =
    let h = xchg-locks w.machine m k false e in
    let lk = w.machine.locks k in
    let locked : lk.locked ≡ true = was_locked lk.locked h.1 in
    λ j.
      ap (λ f. f j) h.0
      ∙ update_same w.machine.locks k (record lk { locked = true })
          (ap (λ b. record lk { locked = b }) (sym locked)) j
      ∙ x j
  where
    was_locked : (b : Bool) → false ≡ (if b then false else true) → b ≡ true
    was_locked b e = ground arith
Step-IsExclusive (Step.takes {w} c k m e) x =
    let h = xchg-locks w.machine m k true e in
    let lk = w.machine.locks k in
    let free : w.holder k ≡ nobody = taken-nobody w k x h.1 in
    let at : lk ≡ lock_of nobody = x k ∙ ap lock_of free in
    set_lock-IsExclusive w m k (taken c) x (
      written w k (record lk { locked = true }) (taken c) m.locks h.0
        (ap (λ (l : Spinlock). record l { locked = true }) at))
Step-IsExclusive (Step.owns {w} c k e) x =
    let at : w.machine.locks k ≡ lock_of (taken c) = x k ∙ ap lock_of e in
    set_lock-IsExclusive w (acquire_own c k w.machine) k (owned c) x
      (ap (λ (l : Spinlock). update w.machine.locks k (record l { cpu = some c })) at)
Step-IsExclusive (Step.clears {w} c k m e) x =
    let lk = w.machine.locks k in
    let h = Ensures_ok _ (release_clear c k w.machine) m (clear-locks w.machine c k) e in
    set_lock-IsExclusive w m k (leaving c) x (
      written w k (record lk { cpu = none }) (leaving c) m.locks h.2
        (ap (λ b. record { locked = b; cpu = none }) h.0))
Step-IsExclusive (Step.frees {w} c k m e done) x =
    let at : w.machine.locks k ≡ lock_of (leaving c) = x k ∙ ap lock_of e in
    let h = Ensures_ok _ (release_free c k w.machine) m (free-locks w.machine c k) done in
    set_lock-IsExclusive w m k nobody x (
      written w k (record (w.machine.locks k) { locked = false }) nobody m.locks h
        (ap (λ (l : Spinlock). record l { locked = false }) at))
Step-IsExclusive (Step.other_cpu cpus) x = x

Reach-only_holder : {w : World} → Reach w → IsExclusive w
Reach-only_holder (Reach.begins cpus) = λ k. refl
Reach-only_holder (Reach.then_step r st) = Step-IsExclusive st (Reach-only_holder r)

-- Processor `c` is between `acquire` and `release` of a lock that implies it to be held by `c`.
lock_of-owned :
    (c : ℕ) (h : Holder)
    → ((((lock_of h).locked && is_mine c (lock_of h).cpu) ≡ true) ↔ (h ≡ owned c))
lock_of-owned c nobody = (λ e. cc, λ e. cc)
lock_of-owned c (taken d) = (λ e. cc, λ e. cc)
lock_of-owned c (owned d) = (
  λ e. let same : d ≡ c = ground arith in ap owned same,
  λ e. let same : d ≡ c = cc in ground arith,
)
lock_of-owned c (leaving d) = (λ e. cc, λ e. cc)

-- `holding` returns, and says yes exactly on the processor that owns the lock.
abbrev pub FindsOwner : World → ℕ → ℕ → Outcome (Cpu × Bool) → Type 0
FindsOwner w c k panic = ⊥
FindsOwner w c k (ok (p, mine)) = (mine ≡ true) ↔ (w.holder k ≡ owned c)

holding-FindsOwner :
    (w : World) (c k : ℕ) (p : Cpu)
    → IsExclusive w
    → FindsOwner w c k (holding c (w.machine.locks k) p)
unfolding holding pushcli popcli
holding-FindsOwner w c k p x =
    let some_more : (p.ncli + 1 == 0) ≡ false = ground arith in
    rw (some_more, x k) (lock_of-owned c (w.holder k))

if_held-owner :
    (w : World) (c k : ℕ) (o : Outcome (Cpu × Bool))
    → FindsOwner w c k o
    → Ensures (λ _. w.holder k ≡ owned c) (o >>= if_held w.machine c k)
if_held-owner w c k panic h = tt
if_held-owner w c k (ok (p, true)) h = h.0 refl
if_held-owner w c k (ok (p, false)) h = tt

-- However processors take, spin on and release locks, also where they are between two instructions
-- of `acquire` or `release`: a lock is set exactly while one processor has it, from the `xchg` that
-- got it to the end of `release`, and it names the processor that is between the two calls;
-- `holding` on any processor returns, and says yes exactly if it is that one; and a `release` that
-- does not panic is that one's.
pub Reach-IsExclusive :
    {w : World} (c k : ℕ) (p : Cpu)
    → Reach w
    → IsExclusive w
      × FindsOwner w c k (holding c (w.machine.locks k) p)
      × Ensures (λ _. w.holder k ≡ owned c) (release_clear c k w.machine)
unfolding release_clear
Reach-IsExclusive {w} c k p r =
    let x = Reach-only_holder r in
    let found = holding c (w.machine.locks k) (w.machine.cpus c) in
    (
      x,
      holding-FindsOwner w c k p x,
      if_held-owner w c k found (holding-FindsOwner w c k (w.machine.cpus c) x),
    )

-- In any state that is reached, an `xchg` gets a lock exactly if no processor has it.
pub Reach-xchg :
    {w : World} (k : ℕ) → Reach w → ((acquire_xchg k w.machine).1 ≡ true) ↔ (w.holder k ≡ nobody)
unfolding acquire_xchg
Reach-xchg {w} k r =
    let x = Reach-only_holder r in
    (
      λ e. taken-nobody w k x (sym e),
      λ e. ap (λ (l : Spinlock). if l.locked then false else true) (x k ∙ ap lock_of e),
    )
